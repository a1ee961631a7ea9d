-- ===== src/InterVm/Tests.antt =====
-- Messages between the sample VMs, with addresses translated to themselves.
use prpl_hypervisor.Base.{ℕ, ◌≤◌, ◌≡◌, ◌≢◌, refl, inl, inr, arith, [], ◌∷◌, ◌==◌, if◌then◌else◌}
use prpl_hypervisor.Machine.{Hypervisor, Cpu, put_vcpu, from_guest_gpr, reg_v0}
use prpl_hypervisor.Machine.Sample.{sample, no_messages}
use prpl_hypervisor.Queue.{get, count, slot}
use prpl_hypervisor.Scheduler.{get_vcpu_from_id, search_id}
use prpl_hypervisor.InterVm.{
  enqueue, reply, intervm_send_msg, intervm_recv_msg, message_vcpu_not_init, message_empty,
}
use prpl_hypervisor.InterVm.Inbox.{IsValid}
use prpl_hypervisor.InterVm.Send.{
  Answered, Delivered, intervm_send_msg_refused, intervm_send_msg_delivers, target, asked_size,
}
use prpl_hypervisor.InterVm.Receive.{intervm_recv_msg_empty}

abbrev same : Cpu → ℕ → ℕ
same c a = a

-- The guest asks to send four bytes at 0x1000 to VM `id`.
abbrev sending : ℕ → Hypervisor
sending id = record sample {
  cpu = record sample.cpu {
    gpr = λ set reg. if reg == 4 then id else if reg == 5 then 0x1000 else 4;
  };
}

abbrev waiting : Hypervisor
unfolding enqueue
waiting =
    put_vcpu sample 100
      (record (sample.vcpu 100) { messages = enqueue no_messages 2 3 (7 ∷ 8 ∷ 9 ∷ []) })

no_messages-IsValid : IsValid no_messages
no_messages-IsValid = record {
  places = refl;
  fit = omega arith;
  out_in = omega arith;
  bounded = omega arith;
  in_at = refl;
}

asked_fits : (id : ℕ) → asked_size (sending id) ≤ 256
unfolding from_guest_gpr
asked_fits id = omega arith

target-sending_2 : target (sending 2) ≡ 200
unfolding get_vcpu_from_id search_id get count from_guest_gpr slot
target-sending_2 = refl

target-sending_3 : target (sending 3) ≡ 300
unfolding get_vcpu_from_id search_id get count from_guest_gpr slot
target-sending_3 = refl

found_2 : target (sending 2) ≢ 0
found_2 = rw target-sending_2 (ground arith)

not_target : 100 ≢ target (sending 2)
not_target = rw target-sending_2 (ground arith)

found_3 : target (sending 3) ≢ 0
found_3 = rw target-sending_3 (ground arith)

-- VM 3 has never run.
never_ran : ((sending 3).vcpu (target (sending 3))).init ≢ 0
never_ran = rw target-sending_3 (ground arith)

has_run : ((sending 2).vcpu (target (sending 2))).init ≡ 0
has_run = rw target-sending_2 refl

inbox-IsValid : IsValid ((sending 2).vcpu (target (sending 2))).messages
inbox-IsValid = rw target-sending_2 no_messages-IsValid

has_room : ((sending 2).vcpu (target (sending 2))).messages.num_messages ≢ 5
has_room = rw target-sending_2 (ground arith)

intervm_send_msg_refused_example :
    Answered same (sending 3) 300 message_vcpu_not_init (intervm_send_msg same (sending 3))
intervm_send_msg_refused_example =
    intervm_send_msg_refused same (sending 3) 300 message_vcpu_not_init
      (inr (asked_fits 3, inr (found_3, inl (never_ran, refl))))

intervm_send_msg_delivers_example :
    Answered same (sending 2) 100 (asked_size (sending 2)) (intervm_send_msg same (sending 2))
    × Delivered same (sending 2) (intervm_send_msg same (sending 2))
intervm_send_msg_delivers_example =
    intervm_send_msg_delivers same (sending 2) 100 (asked_fits 2) found_2 has_run inbox-IsValid
      has_room not_target

intervm_recv_msg_empty_example : intervm_recv_msg same sample ≡ reply sample reg_v0 message_empty
intervm_recv_msg_empty_example = intervm_recv_msg_empty same sample refl
