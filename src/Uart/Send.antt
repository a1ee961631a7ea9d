-- ===== src/Uart/Send.antt =====
-- The hypercall `send`, which queues what it cannot send at once.
use prpl_hypervisor.Base.{
  ℕ, suc, ◌<◌, ◌^◌, ◌≡◌, ◌≢◌, refl, sym, ap, ◌∙◌, subst, inl, inr, ◌++◌, arith, length, length-set,
  get_or, get_or-set_self, get_or-set_ne, set, negative, ltb, ltb-ge, ltb→lt, Bool-cases,
  if◌then◌else◌,
}
use native.Mathlib.Decide.{ℕ_discrete}
use prpl_hypervisor.Machine.{Hypervisor, Vcpu, Cpu, blocked, put_vcpu}
use prpl_hypervisor.Uart.{Uart, no_transfer, transfer}
use prpl_hypervisor.Uart.Loops.{IsUart, IsQueued}
use prpl_hypervisor.Machine.{from_guest_gpr, from_guest_gpr-to_guest_gpr, reg_v0, reg_a0}
use prpl_hypervisor.Base.{lt_int, sub32}
use prpl_hypervisor.Uart.{send, scheduler_transfer_interrupt}
use prpl_hypervisor.Uart.Progress.{active_in}
use prpl_hypervisor.Uart.Table.{Fits, each-set, others_wait}
use prpl_hypervisor.Uart.Sends.{
  CanSend, asked_size, IsPlace, at_once, first_chars, queued_transfer, begun, answer, send-answer,
  Sends, finished-Sends,
}

module _ (poke : (ℕ → ℕ) → ℕ → ℕ → ℕ → ℕ) (irq : ℕ) (mmu : Cpu → ℕ → ℕ) where
  -- The state in which the rest is queued.
  queued : Hypervisor → Uart → ℕ → Hypervisor × Uart
  queued h u room =
      scheduler_transfer_interrupt poke irq (from_guest_gpr h.cpu reg_a0) (at_once h u room)
        (asked_size h) (begun poke irq mmu h u room)

  blocked_vcpus : Hypervisor → ℕ → Vcpu
  blocked_vcpus h =
      (put_vcpu h h.vcpu_executing (record (h.vcpu h.vcpu_executing) { state = blocked })).vcpu

  blocked_self :
      (h : Hypervisor)
      → blocked_vcpus h h.vcpu_executing ≡ record (h.vcpu h.vcpu_executing) { state = blocked }
  unfolding blocked_vcpus
  blocked_self h = ground arith

  place :
      (h : Hypervisor) (j : ℕ)
      → (h.vcpu h.vcpu_executing).id ≡ suc j
      → j < 2 ^ 31
      → sub32 (h.vcpu h.vcpu_executing).id 1 ≡ j
  place h j e l = omega arith

  queued-each :
      (h : Hypervisor) (u : Uart) (j room : ℕ)
      → IsUart h.vcpu u
      → CanSend h u j
      → at_once h u room < asked_size h
      → asked_size h < 2 ^ 32
      → (k : ℕ)
      → Fits
          (blocked_vcpus h)
          k
          (get_or (set u.transfers j (queued_transfer poke irq mmu h u room)) k no_transfer)
  unfolding blocked_vcpus
  queued-each h u j room w c l fits =
      each-set h.vcpu (blocked_vcpus h) u.transfers j (queued_transfer poke irq mmu h u room) w.each
        c.inside (inr mine)
        (λ k s n q.
          others_wait h j h.vcpu_executing (record (h.vcpu h.vcpu_executing) { state = blocked }) k
            s c.id n q)
    where
      mine : IsQueued (blocked_vcpus h) j (queued_transfer poke irq mmu h u room)
      mine = record {
        non_null = c.executes;
        more = l;
        fits = fits;
        owner = ap (λ v. v.id) (blocked_self h) ∙ c.id;
        waits = ap (λ v. v.state) (blocked_self h);
      }

  next_active : Uart → ℕ → ℕ
  next_active u j = if lt_int u.active_transfer 0 then j else u.active_transfer

  queued_table : Hypervisor → Uart → ℕ → ℕ → Uart
  queued_table h u j room = record u {
    transfers = set u.transfers j (queued_transfer poke irq mmu h u room);
    active_transfer = next_active u j;
    sent = u.sent ++ first_chars poke irq mmu h u room;
  }

  queued-table :
      (h : Hypervisor) (u : Uart) (j room : ℕ)
      → IsUart h.vcpu u
      → CanSend h u j
      → ((queued h u room).0.vcpu ≡ blocked_vcpus h)
        × ((queued h u room).1 ≡ queued_table h u j room)
  unfolding queued scheduler_transfer_interrupt begun queued_table next_active blocked_vcpus
  queued-table h u j room w c = (
    refl,
    ap
        (λ i. record u {
          transfers = set u.transfers i (queued_transfer poke irq mmu h u room);
          active_transfer = if lt_int u.active_transfer 0 then i else u.active_transfer;
          sent = u.sent ++ first_chars poke irq mmu h u room;
        })
        (place h j c.id (omega (arith, c.inside, w.few))),
  )

  queued_active :
      (h : Hypervisor) (u : Uart) (j room : ℕ)
      → IsUart h.vcpu u
      → CanSend h u j
      → let u' = queued_table h u j room in
        (u'.active_transfer < length u'.transfers) × ((transfer u' u'.active_transfer).vcpu ≢ 0)
  unfolding queued_table next_active
  queued_active h u j room w c = elim (ℕ_discrete u.active_transfer (negative 1)) [
    | yes e ↦
        let idle : (if lt_int u.active_transfer 0 then j else u.active_transfer) ≡ j =
          ground (arith, e) in
        subst (IsPlace (set u.transfers j (queued_transfer poke irq mmu h u room))) (sym idle) (
          subst (λ n. j < n)
              (sym (length-set u.transfers j (queued_transfer poke irq mmu h u room))) c.inside,
          λ z. c.executes (
              ap (λ t. t.vcpu)
                (sym (
                  get_or-set_self u.transfers j (queued_transfer poke irq mmu h u room) no_transfer
                    c.inside))
              ∙ z),
        )
    | no n ↦
        let (l, q) = active_in poke irq mmu h u w n in
        let busy : (if lt_int u.active_transfer 0 then j else u.active_transfer)
            ≡ u.active_transfer =
          ground (arith, l, w.few) in
        subst (IsPlace (set u.transfers j (queued_transfer poke irq mmu h u room))) (sym busy) (
          subst (λ n. u.active_transfer < n)
              (sym (length-set u.transfers j (queued_transfer poke irq mmu h u room))) l,
          λ z. q.non_null (
              ap (λ t. t.vcpu)
                (sym (
                  get_or-set_ne u.transfers (queued_transfer poke irq mmu h u room) no_transfer
                    (other q.non_null)))
              ∙ z),
        )
  ]
    where
      other : (transfer u u.active_transfer).vcpu ≢ 0 → j ≢ u.active_transfer
      other n e = n (ap (λ k. (transfer u k).vcpu) (sym e) ∙ c.free)

  queued_table-IsUart :
      (h : Hypervisor) (u : Uart) (j room : ℕ)
      → IsUart h.vcpu u
      → CanSend h u j
      → at_once h u room < asked_size h
      → asked_size h < 2 ^ 32
      → IsUart (blocked_vcpus h) (queued_table h u j room)
  unfolding queued_table
  queued_table-IsUart h u j room w c l fits = record {
    few =
        subst (λ n. n < 2 ^ 31)
          (sym (length-set u.transfers j (queued_transfer poke irq mmu h u room))) w.few;
    each = queued-each h u j room w c l fits;
    active = inr (queued_active h u j room w c);
  }

  queued_table-holds :
      (h : Hypervisor) (u : Uart) (j room : ℕ)
      → CanSend h u j
      → (transfer (queued_table h u j room) j ≡ queued_transfer poke irq mmu h u room)
        × ((queued_table h u j room).sent ≡ u.sent ++ first_chars poke irq mmu h u room)
  unfolding queued_table
  queued_table-holds h u j room c = (
    get_or-set_self u.transfers j (queued_transfer poke irq mmu h u room) no_transfer c.inside,
    refl,
  )

  queued-Sends :
      (h : Hypervisor) (u : Uart) (j room : ℕ)
      → IsUart h.vcpu u
      → CanSend h u j
      → at_once h u room < asked_size h
      → asked_size h < 2 ^ 32
      → Sends poke irq mmu h u j room
          (answer poke irq mmu (asked_size h) (queued h u room)).0
          (answer poke irq mmu (asked_size h) (queued h u room)).1
  unfolding answer
  queued-Sends h u j room w c l fits =
      let (vcpus, table) = queued-table h u j room w c in
      let valid = queued_table-IsUart h u j room w c l fits in
      let holds = queued_table-holds h u j room c in
      let (inside, mine) = queued_active h u j room w c in
      record {
        valid =
            subst (λ v. IsUart v (queued h u room).1) (sym vcpus)
              (subst (IsUart (blocked_vcpus h)) (sym table) valid);
        sent = ap (λ t. t.sent) table ∙ holds.1;
        answered = from_guest_gpr-to_guest_gpr (queued h u room).0.cpu reg_v0 (asked_size h);
        outcome = inr (
          l,
          ap (λ t. transfer t j) table ∙ holds.0,
          ap (λ v. (v h.vcpu_executing).state) vcpus ∙ ap (λ v. v.state) (blocked_self h),
          λ e. omega (arith, valid.few, inside, ap (λ t. t.active_transfer) table, e),
        );
      }

  -- When the executing VCPU has a place in the table where nothing is queued, and asks for a word of
  -- characters, `send` keeps the table valid, sends what fits into the hardware's queue at once if no
  -- transfer is active, and else nothing, and answers the size. If that was all, no VCPU changes; if not,
  -- the transfer of the rest is queued, a transfer is active, and the VCPU is blocked.
  pub send_lem :
      (h : Hypervisor) (u : Uart) (j room : ℕ)
      → IsUart h.vcpu u
      → CanSend h u j
      → asked_size h < 2 ^ 32
      → let (h', u') = send poke irq mmu room (h, u) in Sends poke irq mmu h u j room h' u'
  unfolding queued
  send_lem h u j room w c fits = elim (Bool-cases (ltb (at_once h u room) (asked_size h))) [
    | inl t ↦
        subst (λ s. Sends poke irq mmu h u j room s.0 s.1)
          (sym (
            send-answer poke irq mmu h u room
            ∙ ap
                (λ b.
                  answer poke irq mmu (asked_size h)
                    (if b then queued h u room else begun poke irq mmu h u room))
                t))
          (queued-Sends h u j room w c (ltb→lt _ _ t) fits)
    | inr t ↦
        subst (λ s. Sends poke irq mmu h u j room s.0 s.1)
          (sym (
            send-answer poke irq mmu h u room
            ∙ ap
                (λ b.
                  answer poke irq mmu (asked_size h)
                    (if b then queued h u room else begun poke irq mmu h u room))
                t))
          (finished-Sends poke irq mmu h u j room w (ltb-ge _ _ t))
  ]
