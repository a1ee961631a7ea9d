-- ===== src/Sharing/Oldest.antt =====
-- What `receive_frame` gives to the guest and keeps.
use prpl_hypervisor.Base.{ℕ, ◌+◌, ◌<◌, ◌≡◌, ◌≢◌, get_or}
use prpl_hypervisor.Machine.{Cpu, from_guest_gpr, reg_a0, reg_v0}
use prpl_hypervisor.Tlb.{tlb_create_entry}
use prpl_hypervisor.InterVm.Written.{behind}
use prpl_hypervisor.Sharing.{Net, get_vm_buffer_pos, frame_at, no_buffer, mtu}

-- The place of the VM in execution in the driver's table.
abbrev pub own_place : Net → ℕ
own_place n = get_vm_buffer_pos n (n.hv.vm (n.hv.vcpu n.hv.vcpu_executing).vm).id

-- The guest's buffer is mapped: the processor, and its address.
abbrev pub mapping : Net → Cpu × ℕ
mapping n =
    tlb_create_entry n.hv.cpu (from_guest_gpr n.hv.cpu reg_a0)
      (n.hv.vm (n.hv.vcpu n.hv.vcpu_executing).vm).base_addr mtu 0xf 1

abbrev pub mapped_net : Net → Net
mapped_net n = record n { hv = record n.hv { cpu = (mapping n).0 } }

module _ (mmu : Cpu → ℕ → ℕ) (b_buf : ℕ) where
  -- The buffer with the oldest frame of the VM in execution, and that frame's size.
  abbrev pub oldest : Net → ℕ
  oldest n = get_or (n.vms (own_place n)).frame_list (n.vms (own_place n)).output no_buffer

  abbrev pub oldest_size : Net → ℕ
  oldest_size n = (n.buf (oldest n)).frame_size

  -- The guest has got the frame: its size in V0, and its bytes, which stood in the driver's memory, where
  -- the guest's buffer is mapped. No other byte of the guests' memory has changed.
  pub record IsHanded (n m : Net) : Type 0 where
    pub size : from_guest_gpr m.hv.cpu reg_v0 ≡ oldest_size n
    pub bytes :
        (t : ℕ)
        → t < oldest_size n
        → m.hv.cpu.byte (mmu (mapping n).0 (behind (mapping n).1 t))
          ≡ n.port.memory (frame_at mmu b_buf (oldest n) + t)
    pub rest :
        (x : ℕ)
        → ((t : ℕ) → t < oldest_size n → x ≢ mmu (mapping n).0 (behind (mapping n).1 t))
        → m.hv.cpu.byte x ≡ n.hv.cpu.byte x
