-- ===== src/Uart/Drain.antt =====
-- The interrupts until nothing is queued.
use prpl_hypervisor.Base.{
  ℕ, zero, suc, ◌≤◌, ◌<◌, ◌≡◌, ◌≢◌, refl, sym, ◌∙◌, subst, ◌⊎◌, inl, inr, List, [], ◌∷◌, Option,
  none, some, All, arith, length, get_or, negative, ==-ne, if◌then◌else◌, ◌==◌,
}
use native.Mathlib.Decide.{ℕ_discrete}
use prpl_hypervisor.Machine.{Hypervisor, Cpu, running}
use prpl_hypervisor.Uart.{Uart, TransferInfo, no_transfer, transfer, transfer_tx_done}
use prpl_hypervisor.Uart.Loops.{IsUart, rest_of, remaining}
use prpl_hypervisor.Uart.Progress.{active_in, transfer_tx_done_lem}
use prpl_hypervisor.Uart.Served.{Served, rest_of_queued}

-- A transfer has no more left than all of them.
rest_of-remaining :
    (ts : List TransferInfo) (j : ℕ)
    → j < length ts
    → rest_of (get_or ts j no_transfer) ≤ remaining ts
rest_of-remaining [] j l = absurd (omega arith)
rest_of-remaining (t ∷ ts) zero l = omega arith
rest_of-remaining (t ∷ ts) (suc j) l = omega (arith, rest_of-remaining ts j (omega arith))

module _ (poke : (ℕ → ℕ) → ℕ → ℕ → ℕ → ℕ) (irq : ℕ) (mmu : Cpu → ℕ → ℕ) where
  -- The handler runs at each interrupt while a transfer is active; the hardware's queue has the given
  -- room each time.
  abbrev pub drain : List ℕ → Hypervisor × Uart → Option (Hypervisor × Uart)
  drain [] (h, u) = some (h, u)
  drain (room ∷ rooms) (h, u) =
      if u.active_transfer == negative 1
      then some (h, u)
      else elim (transfer_tx_done poke irq mmu room (h, u)) [ none ↦ none | some s ↦ drain rooms s ]

  -- The VCPUs that wait in `u` run in `h'`.
  abbrev pub AllRun : Uart → Hypervisor → Type 0
  AllRun u h' = (j : ℕ) → ((transfer u j).vcpu ≢ 0) → (h'.vcpu (transfer u j).vcpu).state ≡ running

  abbrev pub Drained : Hypervisor → Uart → Hypervisor → Uart → Type 0
  Drained h u h' u' =
      (u'.active_transfer ≡ negative 1)
      × ((j : ℕ) → (transfer u' j).vcpu ≡ 0)
      × AllRun u h'
      × ((p : ℕ) → (h.vcpu p).state ≡ running → (h'.vcpu p).state ≡ running)

  Drained-idle :
      (h : Hypervisor) (u : Uart)
      → IsUart h.vcpu u
      → u.active_transfer ≡ negative 1
      → Drained h u h u
  Drained-idle h u w e = (e, empty w.active, (λ j n. absurd (n (empty w.active j))), λ p r. r)
    where
      empty :
          ((u.active_transfer ≡ negative 1) × ((j : ℕ) → (transfer u j).vcpu ≡ 0))
            ⊎ ((u.active_transfer < length u.transfers) × ((transfer u u.active_transfer).vcpu ≢ 0))
          → (j : ℕ) → (transfer u j).vcpu ≡ 0
      empty (inl i) = i.1
      empty (inr i) = absurd (omega (arith, i.0, e, w.few))

  Drained-after :
      (h : Hypervisor) (u : Uart) (room : ℕ) (h' : Hypervisor) (u' : Uart) (h'' : Hypervisor)
      (u'' : Uart)
      → Served poke irq mmu h u room h' u'
      → Drained h' u' h'' u''
      → Drained h u h'' u''
  Drained-after h u room h' u' h'' u'' s d = (d.0, d.1, all_run, λ p r. d.3 p (s.runs p r))
    where
      all_run : AllRun u h''
      all_run j n = elim (s.awakes j) [
        | inl same ↦ subst (λ p. (h''.vcpu p).state ≡ running) same (d.2 j (λ z. n (sym same ∙ z)))
        | inr r ↦ d.3 (transfer u j).vcpu r
      ]

  drain_step :
      (room : ℕ) (rooms : List ℕ) (h : Hypervisor) (u : Uart) (h' : Hypervisor) (u' : Uart)
      → u.active_transfer ≢ negative 1
      → transfer_tx_done poke irq mmu room (h, u) ≡ some (h', u')
      → drain (room ∷ rooms) (h, u) ≡ drain rooms (h', u')
  drain_step room rooms h u h' u' a e = rw (==-ne u.active_transfer (negative 1) a, e) refl

  drain_idle :
      (rooms : List ℕ) (h : Hypervisor) (u : Uart)
      → u.active_transfer ≡ negative 1
      → drain rooms (h, u) ≡ some (h, u)
  drain_idle [] h u e = refl
  drain_idle (room ∷ rooms) h u e = rw e refl

  -- When a character or more fits into the hardware's queue at each interrupt, and there are as many
  -- interrupts as characters are left to send, then the handler gets through: it never fails, nothing is
  -- queued any more, every VCPU that waited runs, and no other was stopped.
  pub drain_lem :
      (rooms : List ℕ) (h : Hypervisor) (u : Uart)
      → IsUart h.vcpu u
      → All (λ room. 0 < room) rooms
      → remaining u.transfers ≤ length rooms
      → (h' : Hypervisor) × (u' : Uart) × (drain rooms (h, u) ≡ some (h', u')) × Drained h u h' u'
  drain_lem [] h u w pos enough = elim (ℕ_discrete u.active_transfer (negative 1)) [
    | yes e ↦ (h, u, refl, Drained-idle h u w e)
    | no a ↦
        let (l, q) = active_in poke irq mmu h u w a in
        absurd (
          omega (
            arith,
            rest_of-remaining u.transfers u.active_transfer l,
            rest_of_queued poke irq mmu (transfer u u.active_transfer) q.non_null,
            q.more,
          ))
  ]
  drain_lem (room ∷ rooms) h u w pos enough = elim (ℕ_discrete u.active_transfer (negative 1)) [
    | yes e ↦ (h, u, drain_idle (room ∷ rooms) h u e, Drained-idle h u w e)
    | no a ↦
        let (l, q) = active_in poke irq mmu h u w a in
        let (h1, u1, e, s) = transfer_tx_done_lem poke irq mmu h u room w a in
        let fewer : remaining u1.transfers ≤ length rooms =
          omega (arith, s.progress, q.more, pos.0) in
        let (h', u', e', d) = drain_lem rooms h1 u1 s.valid pos.1 fewer in
        (h', u', drain_step room rooms h u h1 u1 a e ∙ e', Drained-after h u room h1 u1 h' u' s d)
  ]
