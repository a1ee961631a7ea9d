-- ===== src/Uart/Sends.antt =====
-- What the hypercall `send` is asked for and leaves.
use prpl_hypervisor.Base.{
  ℕ, suc, ◌+◌, ◌-◌, ◌≤◌, ◌<◌, ◌≡◌, ◌≢◌, refl, ap₂, ◌∙◌, ◌⊎◌, inl, List, ◌++◌, arith, length, get_or,
  min, ltb, if◌then◌else◌,
}
use prpl_hypervisor.Machine.{Hypervisor, Cpu, blocked}
use prpl_hypervisor.Tlb.{tlb_create_entry}
use prpl_hypervisor.Uart.{Uart, TransferInfo, no_transfer, transfer, transmit, buffer}
use prpl_hypervisor.Uart.Loops.{IsUart, characters, transmit_lem}
use prpl_hypervisor.Machine.{
  from_guest_gpr, to_guest_gpr, from_guest_gpr-to_guest_gpr, reg_v0, reg_a0, reg_a1,
}
use prpl_hypervisor.Base.{lt_int}
use prpl_hypervisor.Uart.{send, scheduler_transfer_interrupt}
use prpl_hypervisor.Uart.Table.{IsActive}

-- The VCPU that executes has a place of its own, where nothing is queued.
pub record CanSend (h : Hypervisor) (u : Uart) (j : ℕ) : Type 0 where
  pub executes : h.vcpu_executing ≢ 0
  pub id : (h.vcpu h.vcpu_executing).id ≡ suc j
  pub inside : j < length u.transfers
  pub free : (transfer u j).vcpu ≡ 0

abbrev pub asked_size : Hypervisor → ℕ
asked_size h = from_guest_gpr h.cpu reg_a1

abbrev pub IsPlace : List TransferInfo → ℕ → Type 0
IsPlace ts i = (i < length ts) × ((get_or ts i no_transfer).vcpu ≢ 0)

-- What fits into the hardware's queue, if no transfer is active.
abbrev pub at_once : Hypervisor → Uart → ℕ → ℕ
at_once h u room = min (if lt_int u.active_transfer 0 then room else 0) (asked_size h)

transmit_all :
    (mapped : ℕ → ℕ) (room size : ℕ)
    → transmit mapped room 0 size ≡ (min room size, characters mapped 0 (min room size))
transmit_all mapped room size =
    let stop : 0 + min room (size - 0) ≡ min room size = omega arith in
    let same : min room (size - 0) ≡ min room size = omega arith in
    transmit_lem mapped room 0 size ∙ ap₂ (λ i n. (i, characters mapped 0 n)) stop same

module _ (poke : (ℕ → ℕ) → ℕ → ℕ → ℕ → ℕ) (irq : ℕ) (mmu : Cpu → ℕ → ℕ) where
  abbrev pub send_mapping : Hypervisor → Cpu × ℕ
  send_mapping h =
      tlb_create_entry h.cpu (from_guest_gpr h.cpu reg_a0)
        (h.vm (h.vcpu h.vcpu_executing).vm).base_addr (asked_size h) 0xf 1

  -- The characters that are sent at once.
  abbrev pub first_chars : Hypervisor → Uart → ℕ → List ℕ
  first_chars h u room =
      characters (buffer poke irq mmu (send_mapping h).0 (send_mapping h).1) 0 (at_once h u room)

  abbrev pub queued_transfer : Hypervisor → Uart → ℕ → TransferInfo
  queued_transfer h u room = record {
    buf_addr = from_guest_gpr h.cpu reg_a0;
    next_character = at_once h u room;
    size = asked_size h;
    vcpu = h.vcpu_executing;
  }

  unfoldable pub begun : Hypervisor → Uart → ℕ → Hypervisor × Uart
  begun h u room =
      (record h { cpu = (send_mapping h).0 }, record u { sent = u.sent ++ first_chars h u room })

  -- The guest's answer.
  unfoldable pub answer : ℕ → Hypervisor × Uart → Hypervisor × Uart
  answer size (h, u) = (record h { cpu = to_guest_gpr h.cpu reg_v0 size }, u)

  pub send-answer :
      (h : Hypervisor) (u : Uart) (room : ℕ)
      → send poke irq mmu room (h, u)
        ≡ answer (asked_size h) (
            if ltb (at_once h u room) (asked_size h)
            then scheduler_transfer_interrupt poke irq
                (from_guest_gpr h.cpu reg_a0)
                (at_once h u room)
                (asked_size h)
                (begun h u room)
            else begun h u room)
  unfolding send answer begun
  send-answer h u room =
      rw
        (transmit_all (buffer poke irq mmu (send_mapping h).0 (send_mapping h).1)
          (if lt_int u.active_transfer 0 then room else 0) (asked_size h))
        refl

  -- What `send` leaves: the first characters are sent, and either these are all, or the transfer of the
  -- others is queued and the VCPU is blocked.
  pub record Sends (h : Hypervisor) (u : Uart) (j room : ℕ) (h' : Hypervisor) (u' : Uart)
      : Type 0 where
    pub valid : IsUart h'.vcpu u'
    pub sent : u'.sent ≡ u.sent ++ first_chars h u room
    pub answered : from_guest_gpr h'.cpu reg_v0 ≡ asked_size h
    pub outcome :
        ((at_once h u room ≡ asked_size h) × (h'.vcpu ≡ h.vcpu) × (u'.transfers ≡ u.transfers))
        ⊎ ((at_once h u room < asked_size h)
            × (transfer u' j ≡ queued_transfer h u room)
            × ((h'.vcpu h.vcpu_executing).state ≡ blocked)
            × IsActive u')

  pub finished-Sends :
      (h : Hypervisor) (u : Uart) (j room : ℕ)
      → IsUart h.vcpu u
      → asked_size h ≤ at_once h u room
      → Sends h u j room
          (answer (asked_size h) (begun h u room)).0
          (answer (asked_size h) (begun h u room)).1
  unfolding answer begun
  finished-Sends h u j room w l = record {
    valid = record { few = w.few; each = w.each; active = w.active };
    sent = refl;
    answered = from_guest_gpr-to_guest_gpr (send_mapping h).0 reg_v0 (asked_size h);
    outcome = inl (omega arith, refl, refl);
  }
