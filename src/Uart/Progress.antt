-- ===== src/Uart/Progress.antt =====
-- The interrupt handler `transfer_tx_done` on a valid table.
use prpl_hypervisor.Base.{
  ℕ, ◌<◌, ◌≡◌, ◌≢◌, refl, ap, ◌∙◌, ◌⊎◌, inl, inr, Option, some, length, negative, ltb, ltb-ge,
  ltb→lt, Bool-cases,
}
use prpl_hypervisor.Machine.{Hypervisor, Cpu}
use prpl_hypervisor.Uart.{Uart, transfer, next_transfer, transfer_tx_done}
use prpl_hypervisor.Uart.Loops.{IsUart, IsQueued, next_transfer-Finds}
use prpl_hypervisor.Uart.Table.{Fits, IsActive}
use prpl_hypervisor.Uart.Served.{advanced, served, transfer_tx_done-served, Served, served-Served}
use prpl_hypervisor.Uart.Ended.{ended, ended_with, end_transfer-ended_with, ended-Served}

module _ (poke : (ℕ → ℕ) → ℕ → ℕ → ℕ → ℕ) (irq : ℕ) (mmu : Cpu → ℕ → ℕ) where
  pub active_in :
      (h : Hypervisor) (u : Uart)
      → IsUart h.vcpu u
      → IsActive u
      → (u.active_transfer < length u.transfers)
        × IsQueued h.vcpu u.active_transfer (transfer u u.active_transfer)
  active_in h u w a = (inside w.active, queued w.active (w.each u.active_transfer))
    where
      inside :
          ((u.active_transfer ≡ negative 1) × ((j : ℕ) → (transfer u j).vcpu ≡ 0))
            ⊎ ((u.active_transfer < length u.transfers) × ((transfer u u.active_transfer).vcpu ≢ 0))
          → u.active_transfer < length u.transfers
      inside (inl i) = absurd (a i.0)
      inside (inr i) = i.0

      queued :
          ((u.active_transfer ≡ negative 1) × ((j : ℕ) → (transfer u j).vcpu ≡ 0))
            ⊎ ((u.active_transfer < length u.transfers) × ((transfer u u.active_transfer).vcpu ≢ 0))
          → Fits h.vcpu u.active_transfer (transfer u u.active_transfer)
          → IsQueued h.vcpu u.active_transfer (transfer u u.active_transfer)
      queued (inl i) f = absurd (a i.0)
      queued (inr i) (inl z) = absurd (i.1 z)
      queued (inr i) (inr q) = q

  pub transfer_tx_done_lem :
      (h : Hypervisor) (u : Uart) (room : ℕ)
      → IsUart h.vcpu u
      → IsActive u
      → (h' : Hypervisor) × (u' : Uart) × (transfer_tx_done poke irq mmu room (h, u)
          ≡ some (h', u'))
        × Served poke irq mmu h u room h' u'
  transfer_tx_done_lem h u room w a =
      let (l, q) = active_in h u w a in
      elim (Bool-cases
        (ltb (advanced poke irq mmu u room).next_character (transfer u u.active_transfer).size)) [
          | inl t ↦ (
            (served poke irq mmu h u room).0,
            (served poke irq mmu h u room).1,
            transfer_tx_done-served poke irq mmu h u room q.non_null ∙ rw t refl,
            served-Served poke irq mmu h u room w l q (ltb→lt _ _ t),
          )
          | inr t ↦
              let o : Option ℕ = next_transfer 0 (ended poke irq mmu u room) in
              (
                (ended_with poke irq mmu h u room o).0,
                (ended_with poke irq mmu h u room o).1,
                transfer_tx_done-served poke irq mmu h u room q.non_null
                    ∙ rw t (ap some (end_transfer-ended_with poke irq mmu h u room l)),
                ended-Served poke irq mmu h u room o w l q (ltb-ge _ _ t)
                    (next_transfer-Finds (ended poke irq mmu u room) 0),
              )
        ]
