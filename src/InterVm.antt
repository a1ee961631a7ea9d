-- ===== src/InterVm.antt =====
-- drivers/inter-vm-comm.c: messages between VMs, through a circular buffer of five messages in the
-- receiver's VCPU. The values are those of the PIC32MZ, where VI_SHIFT is GUESTCLT2_GRIPL_SHIFT.
--
-- `mmu c a` is the physical address to which the hardware translates `a` with the processor's TLB as
-- `c` has it; it is an argument, since the hardware is not part of the repository.
pub mod Inbox
pub mod Send
pub mod Written
pub mod Receive
pub mod Init
mod Tests
use prpl_hypervisor.Base.{
  ℕ, zero, suc, ◌+◌, ◌*◌, ◌%◌, ◌^◌, List, [], ◌∷◌, ◌++◌, get_or, set, take, drop, add32, sub32,
  negative, bit_and, bit_or, ltb, Option, ◌==◌, if◌then◌else◌,
}
use prpl_hypervisor.Machine.{
  Hypervisor, Vcpu, Cpu, Message, MessageBuffer, put_vcpu, store, from_guest_gpr, to_guest_gpr,
  complement, get_guest_ctl2, set_guest_ctl2, reg_v0, reg_a0, reg_a1, reg_a2,
}
use prpl_hypervisor.Tlb.{tlb_create_entry}
use prpl_hypervisor.Hypercall.{register_or_stop}
use prpl_hypervisor.Scheduler.{get_vcpu_from_id, fast_interrupt_delivery}

abbrev pub message_vcpu_not_found : ℕ
message_vcpu_not_found = negative 1

abbrev pub message_full : ℕ
message_full = negative 2

abbrev pub message_too_big : ℕ
message_too_big = negative 3

abbrev pub message_empty : ℕ
message_empty = negative 4

abbrev pub message_vcpu_not_init : ℕ
message_vcpu_not_init = negative 5

-- MESSAGELIST_SZ and MESSAGE_SZ
abbrev pub messagelist_sz : ℕ
messagelist_sz = 5

abbrev pub message_sz : ℕ
message_sz = 256

-- GUEST_INTERVM_INT << GUESTCLT2_GRIPL_SHIFT
abbrev pub intervm_bit : ℕ
intervm_bit = 2 * 2 ^ 24

abbrev pub no_message : Message
no_message = record { source_id = 0; size = 0; message = [] }

-- A write to the guest's register.
abbrev pub reply : Hypervisor → ℕ → ℕ → Hypervisor
reply h reg v = record h { cpu = to_guest_gpr h.cpu reg v }

-- `get_vm_id`
unfoldable pub get_vm_id : Hypervisor → Hypervisor
get_vm_id h = reply h reg_v0 (h.vm (h.vcpu h.vcpu_executing).vm).id

-- `guest_is_up`
unfoldable pub guest_is_up : Hypervisor → Hypervisor
guest_is_up h =
    let p = get_vcpu_from_id h (from_guest_gpr h.cpu reg_a0) in
    if p == 0
    then reply h reg_v0 message_vcpu_not_found
    else reply h reg_v0 (if (h.vcpu p).init == 0 then 1 else message_vcpu_not_init)

-- The two uses of `memcpy`: from mapped memory, and to it.
unfoldable pub read_bytes : (ℕ → ℕ) → Cpu → ℕ → ℕ → List ℕ
read_bytes mmu c a zero = []
read_bytes mmu c a (suc n) = c.byte (mmu a) ∷ read_bytes mmu c (add32 a 1) n

unfoldable pub write_bytes : (ℕ → ℕ) → Cpu → ℕ → List ℕ → Cpu
write_bytes mmu c a [] = c
write_bytes mmu c a (b ∷ bs) =
    write_bytes mmu (record c { byte = store c.byte (mmu a) b }) (add32 a 1) bs

-- The message at `in` is filled in: the first `size` bytes of its array, its size and its source.
unfoldable pub enqueue : MessageBuffer → ℕ → ℕ → List ℕ → MessageBuffer
enqueue b source size bytes =
    let old = get_or b.message_list b.in_index no_message in
    record b {
      message_list =
          set b.message_list b.in_index
            (record { source_id = source; size = size; message = bytes ++ drop size old.message });
      num_messages = add32 b.num_messages 1;
      in_index = add32 b.in_index 1 % messagelist_sz;
    }

unfoldable pub dequeue : MessageBuffer → MessageBuffer
dequeue b = record b {
  num_messages = sub32 b.num_messages 1;
  out_index = add32 b.out_index 1 % messagelist_sz;
}

module _ (mmu : Cpu → ℕ → ℕ) where
  -- The part of `intervm_send_msg` behind its checks.
  unfoldable pub deliver : Hypervisor → ℕ → ℕ → ℕ → Hypervisor
  unfolding enqueue read_bytes
  deliver h p message_ptr message_size =
      let vm = h.vm (h.vcpu h.vcpu_executing).vm in
      let (c, mapped) = tlb_create_entry h.cpu message_ptr vm.base_addr message_size 0xf 0 in
      let bytes = read_bytes (mmu c) c mapped message_size in
      let v = h.vcpu p in
      let v' = record v {
        messages = enqueue v.messages vm.id message_size bytes;
        guestclt2 = bit_or v.guestclt2 intervm_bit;
      } in
      fast_interrupt_delivery (reply (record (put_vcpu h p v') { cpu = c }) reg_v0 message_size) p

  -- `intervm_send_msg`
  unfoldable pub intervm_send_msg : Hypervisor → Hypervisor
  intervm_send_msg h =
      let target_id = from_guest_gpr h.cpu reg_a0 in
      let message_ptr = from_guest_gpr h.cpu reg_a1 in
      let message_size = from_guest_gpr h.cpu reg_a2 in
      let p = get_vcpu_from_id h target_id in
      let v = h.vcpu p in
      if ltb message_sz message_size
      then reply h reg_v0 message_too_big
      else if p == 0
      then reply h reg_v0 message_vcpu_not_found
      else if v.init == 0
      then (if v.messages.num_messages == messagelist_sz
          then reply (put_vcpu h p (record v { guestclt2 = bit_or v.guestclt2 intervm_bit })) reg_v0
              message_full
          else deliver h p message_ptr message_size)
      else reply h reg_v0 message_vcpu_not_init

  -- `intervm_recv_msg`
  unfoldable pub intervm_recv_msg : Hypervisor → Hypervisor
  intervm_recv_msg h =
      let v = h.vcpu h.vcpu_executing in
      let vm = h.vm v.vm in
      let m = get_or v.messages.message_list v.messages.out_index no_message in
      let (c, mapped) =
        tlb_create_entry h.cpu (from_guest_gpr h.cpu reg_a0) vm.base_addr m.size 0xf 0 in
      let c1 = write_bytes (mmu c) c mapped (take m.size m.message) in
      let c2 = to_guest_gpr (to_guest_gpr c1 reg_v0 m.size) reg_a0 m.source_id in
      let c3 = set_guest_ctl2 c2 (bit_and (get_guest_ctl2 c2) (complement intervm_bit)) in
      if v.messages.num_messages == 0 then reply h reg_v0 message_empty else record h {
        vcpu =
            (put_vcpu h h.vcpu_executing (record v {
              messages = dequeue v.messages;
              guestclt2 = bit_and v.guestclt2 (complement intervm_bit);
            })).vcpu;
        cpu = c3;
      }

-- `intervm_init`, with the handlers of the four hypercalls.
unfoldable pub intervm_init {ℓ} : {H : Type ℓ} → H → H → H → H → List (Option H) → List (Option H)
intervm_init {H = H} vm_id send recv up table =
    let stop = λ (t : List (Option H)). t in
    register_or_stop table vm_id 0 stop (λ t1.
      register_or_stop t1 send 2 stop
        (λ t2. register_or_stop t2 recv 1 stop (λ t3. register_or_stop t3 up 3 stop stop)))
