-- ===== src/InterVm/Receive.antt =====
-- `intervm_recv_msg`: what the guest is answered, and what is left of its inbox.
use prpl_hypervisor.Base.{ℕ, ◌≡◌, refl, get_or}
use prpl_hypervisor.Machine.{Hypervisor, Vcpu, Cpu, Message, from_guest_gpr, reg_v0, reg_a0}
use prpl_hypervisor.Tlb.{tlb_create_entry}
use prpl_hypervisor.InterVm.{reply, intervm_recv_msg, no_message, message_empty}

-- The VCPU that executes, and the message that it takes.
abbrev pub receiver : Hypervisor → Vcpu
receiver h = h.vcpu h.vcpu_executing

abbrev pub oldest : Hypervisor → Message
oldest h = get_or (receiver h).messages.message_list (receiver h).messages.out_index no_message

-- The guest's buffer of `size` bytes is mapped: the processor, and the buffer's address.
abbrev pub guest_buffer : Hypervisor → ℕ → Cpu × ℕ
guest_buffer h size =
    tlb_create_entry h.cpu (from_guest_gpr h.cpu reg_a0) (h.vm (receiver h).vm).base_addr size 0xf 0

module _ (mmu : Cpu → ℕ → ℕ) where
  -- A guest without a message is answered MESSAGE_EMPTY, and only that register changes.
  pub intervm_recv_msg_empty :
      (h : Hypervisor)
      → (receiver h).messages.num_messages ≡ 0
      → intervm_recv_msg mmu h ≡ reply h reg_v0 message_empty
  unfolding intervm_recv_msg
  intervm_recv_msg_empty h z = rw z refl
