-- ===== src/InterVm/Send.antt =====
-- `intervm_send_msg`: what each of its outcomes answers and does to the inboxes.
use prpl_hypervisor.Base.{
  add32, get_or, bit_or, ℕ, zero, suc, ◌≤◌, ◌<◌, ◌≡◌, ◌≢◌, refl, sym, ap, ◌∙◌, subst, ◌⊎◌, inl, inr,
  List, [], ◌∷◌, ◌++◌, arith, length, ◌==◌, ==-refl, ==-ne, if◌then◌else◌,
}
use prpl_hypervisor.Machine.{
  put_vcpu, Hypervisor, Vm, Cpu, from_guest_gpr, from_guest_gpr-to_guest_gpr, reg_v0, reg_a0,
  reg_a1, reg_a2,
}
use prpl_hypervisor.Tlb.{tlb_create_entry}
use prpl_hypervisor.Scheduler.{get_vcpu_from_id, fast_interrupt_delivery}
use prpl_hypervisor.InterVm.{
  reply, intervm_bit, intervm_send_msg, deliver, read_bytes, enqueue, messagelist_sz, message_sz,
  message_too_big, message_vcpu_not_found, message_full, message_vcpu_not_init,
}
use prpl_hypervisor.InterVm.Written.{behind, get_or-read_bytes}
use prpl_hypervisor.InterVm.Inbox.{IsValid, inbox, inbox-enqueue, enqueue-IsValid}

pub length-read_bytes : (mmu : ℕ → ℕ) (c : Cpu) (a n : ℕ) → length (read_bytes mmu c a n) ≡ n
unfolding read_bytes
length-read_bytes mmu c a zero = refl
length-read_bytes mmu c a (suc n) = ap suc (length-read_bytes mmu c (add32 a 1) n)

cpu-fast_interrupt_delivery : (h : Hypervisor) (p : ℕ) → (fast_interrupt_delivery h p).cpu ≡ h.cpu
unfolding fast_interrupt_delivery
cpu-fast_interrupt_delivery h p = ground arith

messages-fast_interrupt_delivery :
    (h : Hypervisor) (p q : ℕ)
    → ((fast_interrupt_delivery h p).vcpu q).messages ≡ (h.vcpu q).messages
unfolding fast_interrupt_delivery
messages-fast_interrupt_delivery h p q = ground arith

abbrev pub sender : Hypervisor → Vm
sender h = h.vm (h.vcpu h.vcpu_executing).vm

-- The VCPU that the message is for, and the size that the guest asks for.
abbrev pub target : Hypervisor → ℕ
target h = get_vcpu_from_id h (from_guest_gpr h.cpu reg_a0)

abbrev pub asked_size : Hypervisor → ℕ
asked_size h = from_guest_gpr h.cpu reg_a2

module _ (mmu : Cpu → ℕ → ℕ) where
  -- The guest's message is mapped: the processor, and its address.
  abbrev pub sent_mapping : Hypervisor → Cpu × ℕ
  sent_mapping h =
      tlb_create_entry h.cpu (from_guest_gpr h.cpu reg_a1) (sender h).base_addr (asked_size h) 0xf 0

  abbrev pub sent_bytes : Hypervisor → List ℕ
  sent_bytes h = let r = sent_mapping h in read_bytes (mmu r.0) r.0 r.1 (asked_size h)

  -- These are the bytes of the message, as the translation of their addresses finds them in memory.
  abbrev pub IsSent : Hypervisor → List ℕ → Type 0
  IsSent h bytes =
      (length bytes ≡ asked_size h)
      × ((t : ℕ)
          → t < asked_size h
          → get_or bytes t 0 ≡ h.cpu.byte (mmu (sent_mapping h).0 (behind (sent_mapping h).1 t)))

  sent_bytes-IsSent : (h : Hypervisor) → IsSent h (sent_bytes h)
  unfolding tlb_create_entry
  sent_bytes-IsSent h =
      let r : Cpu × ℕ = sent_mapping h in
      (
        length-read_bytes (mmu r.0) r.0 r.1 (asked_size h),
        (λ t l. get_or-read_bytes (mmu r.0) r.0 r.1 (asked_size h) t (omega arith) l),
      )

  -- How `g` differs from `h` in what the guest is answered and in the messages of `q`.
  abbrev pub Answered : Hypervisor → ℕ → ℕ → Hypervisor → Type 0
  Answered h q code g =
      (from_guest_gpr g.cpu reg_v0 ≡ code) × ((g.vcpu q).messages ≡ (h.vcpu q).messages)

  abbrev pub Delivered : Hypervisor → Hypervisor → Type 0
  Delivered h g =
      (bytes : List ℕ) × IsSent h bytes
      × (inbox (g.vcpu (target h)).messages
          ≡ inbox (h.vcpu (target h)).messages ++ ((sender h).id, bytes) ∷ [])
      × IsValid (g.vcpu (target h)).messages

  deliver_lem :
      (h : Hypervisor) (p q : ℕ)
      → let h' = deliver mmu h p (from_guest_gpr h.cpu reg_a1) (asked_size h) in
        (from_guest_gpr h'.cpu reg_v0 ≡ asked_size h)
        × ((h'.vcpu q).messages ≡ (
            if q == p
            then enqueue (h.vcpu p).messages (sender h).id (asked_size h) (sent_bytes h)
            else (h.vcpu q).messages))
  unfolding deliver
  deliver_lem h p q = (
    ap (λ c. from_guest_gpr c reg_v0) (cpu-fast_interrupt_delivery _ p)
        ∙ from_guest_gpr-to_guest_gpr _ reg_v0 (asked_size h),
    messages-fast_interrupt_delivery _ p q ∙ ground arith,
  )

  send_too_big :
      (h : Hypervisor)
      → message_sz < asked_size h
      → intervm_send_msg mmu h ≡ reply h reg_v0 message_too_big
  unfolding intervm_send_msg
  send_too_big h lt = ground arith

  send_not_found :
      (h : Hypervisor)
      → asked_size h ≤ message_sz
      → target h ≡ 0
      → intervm_send_msg mmu h ≡ reply h reg_v0 message_vcpu_not_found
  unfolding intervm_send_msg
  send_not_found h le z = ground arith

  send_not_init :
      (h : Hypervisor)
      → asked_size h ≤ message_sz
      → target h ≢ 0
      → (h.vcpu (target h)).init ≢ 0
      → intervm_send_msg mmu h ≡ reply h reg_v0 message_vcpu_not_init
  unfolding intervm_send_msg
  send_not_init h le n i = ground arith

  send_full :
      (h : Hypervisor)
      → asked_size h ≤ message_sz
      → target h ≢ 0
      → (h.vcpu (target h)).init ≡ 0
      → (h.vcpu (target h)).messages.num_messages ≡ messagelist_sz
      → intervm_send_msg mmu h
        ≡ reply
            (put_vcpu h (target h) (record (h.vcpu (target h)) {
              guestclt2 = bit_or (h.vcpu (target h)).guestclt2 intervm_bit;
            }))
            reg_v0
            message_full
  unfolding intervm_send_msg
  send_full h le n i full = ground arith

  send_accepted :
      (h : Hypervisor)
      → asked_size h ≤ message_sz
      → target h ≢ 0
      → (h.vcpu (target h)).init ≡ 0
      → (h.vcpu (target h)).messages.num_messages ≢ messagelist_sz
      → intervm_send_msg mmu h
        ≡ deliver mmu h (target h) (from_guest_gpr h.cpu reg_a1) (asked_size h)
  unfolding intervm_send_msg
  send_accepted h le n i room = ground arith

  -- The code of the first check that a message does not pass.
  abbrev pub Refusal : Hypervisor → ℕ → Type 0
  Refusal h code =
      ((message_sz < asked_size h) × (code ≡ message_too_big))
      ⊎ ((asked_size h ≤ message_sz)
          × (((target h ≡ 0) × (code ≡ message_vcpu_not_found))
              ⊎ ((target h ≢ 0)
                  × ((((h.vcpu (target h)).init ≢ 0) × (code ≡ message_vcpu_not_init))
                      ⊎ (((h.vcpu (target h)).init ≡ 0)
                          × ((h.vcpu (target h)).messages.num_messages ≡ messagelist_sz)
                          × (code ≡ message_full))))))

  full_keeps :
      (h : Hypervisor) (p q g : ℕ)
      → ((put_vcpu h p (record (h.vcpu p) { guestclt2 = g })).vcpu q).messages ≡ (h.vcpu q).messages
  full_keeps h p q g = ground arith

  -- A message that does not pass the checks (at most 256 bytes, for a known VCPU, that has run, and
  -- that has fewer than five messages waiting) is answered the code of the first check that it fails,
  -- which is a negative number and not 0, and no VCPU's messages change.
  pub intervm_send_msg_refused :
      (h : Hypervisor) (q code : ℕ) → Refusal h code → Answered h q code (intervm_send_msg mmu h)
  intervm_send_msg_refused h q code (inl (lt, e)) =
      subst (Answered h q code) (sym (send_too_big h lt))
        (from_guest_gpr-to_guest_gpr h.cpu reg_v0 message_too_big ∙ sym e, refl)
  intervm_send_msg_refused h q code (inr (le, inl (z, e))) =
      subst (Answered h q code) (sym (send_not_found h le z))
        (from_guest_gpr-to_guest_gpr h.cpu reg_v0 message_vcpu_not_found ∙ sym e, refl)
  intervm_send_msg_refused h q code (inr (le, inr (n, inl (i, e)))) =
      subst (Answered h q code) (sym (send_not_init h le n i))
        (from_guest_gpr-to_guest_gpr h.cpu reg_v0 message_vcpu_not_init ∙ sym e, refl)
  intervm_send_msg_refused h q code (inr (le, inr (n, inr (i, full, e)))) =
      subst (Answered h q code) (sym (send_full h le n i full))
        (from_guest_gpr-to_guest_gpr h.cpu reg_v0 message_full ∙ sym e, full_keeps h (target h) q _)

  exact : (h : Hypervisor) → length (sent_bytes h) ≡ asked_size h
  exact h = length-read_bytes _ _ _ (asked_size h)

  own :
      (h : Hypervisor)
      → ((deliver mmu h (target h) (from_guest_gpr h.cpu reg_a1) (asked_size h)).vcpu
          (target h)).messages
        ≡ enqueue (h.vcpu (target h)).messages (sender h).id (asked_size h) (sent_bytes h)
  own h =
      (deliver_lem h (target h) (target h)).1
      ∙ ap
          (λ b.
            if b
            then enqueue (h.vcpu (target h)).messages (sender h).id (asked_size h) (sent_bytes h)
            else (h.vcpu (target h)).messages)
          (==-refl (target h))

  -- Any other message is delivered: the guest is answered its size, which is 0 for an empty one, and the
  -- target's inbox, which stays valid, gets the sender's id with the bytes of the message behind what it
  -- held; any other VCPU keeps its inbox.
  pub intervm_send_msg_delivers :
      (h : Hypervisor) (q : ℕ)
      → asked_size h ≤ message_sz
      → target h ≢ 0
      → (h.vcpu (target h)).init ≡ 0
      → IsValid (h.vcpu (target h)).messages
      → (h.vcpu (target h)).messages.num_messages ≢ messagelist_sz
      → q ≢ target h
      → Answered h q (asked_size h) (intervm_send_msg mmu h) × Delivered h (intervm_send_msg mmu h)
  intervm_send_msg_delivers h q le n i v room other =
      subst (λ g. Answered h q (asked_size h) g × Delivered h g) (sym (send_accepted h le n i room))
        (
          (
            (deliver_lem h (target h) q).0,
            (deliver_lem h (target h) q).1
                ∙ ap
                    (λ b.
                      if b
                      then enqueue (h.vcpu (target h)).messages (sender h).id (asked_size h)
                          (sent_bytes h)
                      else (h.vcpu q).messages)
                    (==-ne q (target h) other),
          ),
          (
            sent_bytes h,
            sent_bytes-IsSent h,
            ap inbox (own h)
                ∙ inbox-enqueue v (sender h).id (asked_size h) (sent_bytes h) space (exact h),
            subst IsValid (sym (own h))
                (enqueue-IsValid v (sender h).id (asked_size h) (sent_bytes h) space (exact h) le),
          ),
        )
    where
      space : (h.vcpu (target h)).messages.num_messages < messagelist_sz
      space = omega (arith, v, room)
