-- ===== src/Creation.antt =====
-- sys/kernel/vm.c: the VMs of the configuration and their VCPUs are created at start-up.
--
-- What the calls of malloc answer is an argument, `blocks`; memory that the code clears is not an
-- argument. The entry points are those of the PIC32MZ.
pub mod Ready
pub mod Entries
mod Tests
use prpl_hypervisor.Base.{
  ℕ, zero, suc, ◌+◌, ◌/◌, ◌^◌, List, [], ◌∷◌, Option, none, some, add32, bit_and, ltb, ◌==◌,
  if◌then◌else◌, replicate,
}
use prpl_hypervisor.Queue.{addtail, create}
use prpl_hypervisor.Machine.{
  Hypervisor, Vcpu, Vm, VmConf, Cpu, TlbEntries, TlbEntry, Message, MessageBuffer, VcpuState,
  running, store, put_vcpu, mfc0, cp0_srsctl,
}
use prpl_hypervisor.Tlb.{tlb_entry_write, valid_dirty}

-- The hypervisor with the static variables of `create_vm` and `create_vcpu`.
pub record Boot : Type 0 where
  pub hypervisor : Hypervisor
  pub vm_id : ℕ
  pub tlbindex : ℕ
  pub vcpu_id : ℕ

-- The addresses of the blocks for one VM: its structure, its VCPU, and the general registers.
pub record Blocks : Type 0 where
  pub vm_at : ℕ
  pub vcpu_at : ℕ
  pub gpr_at : ℕ

-- `num_shadow_gprs`
unfoldable pub num_shadow_gprs : Cpu → ℕ
num_shadow_gprs c = bit_and (mfc0 c cp0_srsctl 2) 0x3c000000 / 2 ^ 26

abbrev pub no_messages : MessageBuffer
no_messages = record {
  in_index = 0;
  out_index = 0;
  num_messages = 0;
  message_list = replicate 5 (record { source_id = 0; size = 0; message = replicate 256 0 });
}

-- What `create_vcpu` fills in, where memset leaves zeros: with `id`, and `shadows` sets of registers.
unfoldable pub new_vcpu : Blocks → ℕ → ℕ → ℕ → ℕ → Vcpu
new_vcpu blocks id shadows entry_point priority = record {
  id = id;
  priority = priority;
  priority_rem = priority;
  critical = 0;
  state = running;
  bgjobs = 0;
  gprshadowset = if ltb shadows id then (if shadows == 0 then 0 else 1) else id;
  cp0_registers = replicate 16 0;
  guestclt2 = 0;
  vm = blocks.vm_at;
  pc = entry_point;
  init = 1;
  messages = no_messages;
  gpr = if ltb shadows id then blocks.gpr_at else 0;
}

-- `create_vcpu`: the VCPU is at `blocks.vcpu_at`.
unfoldable pub create_vcpu : Boot → Blocks → ℕ → ℕ → Boot
unfolding new_vcpu num_shadow_gprs
create_vcpu b blocks entry_point priority =
    let vcpu = new_vcpu blocks b.vcpu_id (num_shadow_gprs b.hypervisor.cpu) entry_point priority in
    record b { hypervisor = put_vcpu b.hypervisor blocks.vcpu_at vcpu; vcpu_id = add32 b.vcpu_id 1 }

-- An entry of a VM's TLB from its configuration.
unfoldable pub make_entry : ℕ → ℕ → TlbEntries → TlbEntry
make_entry guest index t = record {
  guestid = guest;
  index = index;
  entrylo0 = t.entrylo0;
  lo0flags = if t.entrylo0 == 0 then 0 else valid_dirty;
  entrylo1 = t.entrylo1;
  lo1flags = if t.entrylo1 == 0 then 0 else valid_dirty;
  pagemask = t.pagemask;
  entryhi = t.entryhi;
  coherency = t.coherency;
}

-- The loop over the entries, with `left` of them to go: the processor, `tlbindex` and the entries.
unfoldable pub fill_tlb : ℕ → Cpu → ℕ → ℕ → List TlbEntries → Cpu × ℕ × List TlbEntry
unfolding make_entry
fill_tlb guest c index zero ts = (c, index, [])
fill_tlb guest c index (suc left) [] = (c, index, [])
fill_tlb guest c index (suc left) (t ∷ ts) =
    let e = make_entry guest index t in
    let (c', index', es) = fill_tlb guest (tlb_entry_write c e) (add32 index 1) left ts in
    (c', index', e ∷ es)

unfoldable pub entry_point_of : ℕ → ℕ
entry_point_of os_type = if os_type == 1 then 0x9d001000 else if os_type == 2 then 0x80100400 else 0

abbrev pub new_vm : ℕ → VmConf → List TlbEntry → Vm
new_vm id conf entries = record {
  id = id;
  base_addr = conf.ram_base;
  os_type = conf.os_type;
  init = 1;
  vmconf = conf;
  ntlbent = conf.num_tlb_entries;
  tlbentries = entries;
}

-- `create_vm`: the VM is at `blocks.vm_at`. The result of queue_addtail is not looked at.
unfoldable pub create_vm : Boot → VmConf → Blocks → Boot
unfolding fill_tlb entry_point_of create_vcpu
create_vm b conf blocks =
    let h = b.hypervisor in
    let (c, tlbindex, entries) = fill_tlb b.vm_id h.cpu b.tlbindex conf.num_tlb_entries conf.tlb in
    let b1 = record b {
      hypervisor = record h { vm = store h.vm blocks.vm_at (new_vm b.vm_id conf entries); cpu = c };
      vm_id = add32 b.vm_id 1;
      tlbindex = tlbindex;
    } in
    let b2 = create_vcpu b1 blocks (entry_point_of conf.os_type) conf.priority in
    record b2 {
      hypervisor = record b2.hypervisor {
        vcpu_ready_list = (addtail b2.hypervisor.vcpu_ready_list blocks.vcpu_at).0;
      };
    }

-- The loop of `initializeMachines`.
unfoldable pub create_vms : Boot → List (VmConf × Blocks) → Boot
create_vms b [] = b
create_vms b ((conf, blocks) ∷ rest) = create_vms (create_vm b conf blocks) rest

-- `initializeMachines`, for the machines of the configuration; `storage` is the array that
-- queue_create allocates, and without a queue the code goes on with a null pointer, which is no result.
unfoldable pub initialize_machines :
    ℕ → List (VmConf × Blocks) → List ℕ → ℕ → ℕ → Hypervisor → Option Boot
initialize_machines machines confs storage q_addr data_addr h =
    elim (create q_addr data_addr machines storage) [
      | none ↦ none
      | some q ↦ some (
          create_vms
            (record {
              hypervisor = record h { vcpu_ready_list = q };
              vm_id = 1;
              tlbindex = 0;
              vcpu_id = 1;
            })
            confs)
    ]
