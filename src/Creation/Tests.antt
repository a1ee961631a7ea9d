-- ===== src/Creation/Tests.antt =====
-- The start-up with two machines, the first of which has two TLB entries.
use prpl_hypervisor.Base.{◌≡◌, refl, List, [], ◌∷◌, some, arith, replicate}
use prpl_hypervisor.Machine.{VmConf, TlbEntries}
use prpl_hypervisor.Machine.Sample.{sample, sample_vm}
use prpl_hypervisor.Scheduler.Select.{IsReady, ready}
use prpl_hypervisor.Creation.{Boot, Blocks, initialize_machines}
use prpl_hypervisor.Creation.Ready.{initialize_machines-IsReady}

abbrev first_entry : TlbEntries
first_entry = record {
  entrylo0 = 16;
  entrylo1 = 17;
  pagemask = 3;
  entryhi = 0x80000;
  coherency = 3;
}

abbrev second_entry : TlbEntries
second_entry = record {
  entrylo0 = 32;
  entrylo1 = 0;
  pagemask = 0;
  entryhi = 0x9d000;
  coherency = 2;
}

abbrev two_entries : VmConf
two_entries = record (sample_vm 1).vmconf {
  num_tlb_entries = 2;
  tlb = first_entry ∷ second_entry ∷ [];
}

abbrev first_blocks : Blocks
first_blocks = record { vm_at = 40; vcpu_at = 100; gpr_at = 60 }

abbrev machines : List (VmConf × Blocks)
machines =
    (two_entries, first_blocks)
    ∷ ((sample_vm 2).vmconf, record { vm_at = 41; vcpu_at = 200; gpr_at = 61 })
    ∷ []

abbrev starting : Boot
starting = record { hypervisor = sample; vm_id = 1; tlbindex = 0; vcpu_id = 1 }

initialize_machines-IsReady_example :
    (b : Boot) × (initialize_machines 2 machines (replicate 3 0) 500 600 sample ≡ some b)
    × (ready b.hypervisor ≡ 100 ∷ 200 ∷ [])
    × IsReady b.hypervisor
initialize_machines-IsReady_example =
    initialize_machines-IsReady machines (replicate 3 0) 500 600 sample (omega arith) refl
      (λ e. omega arith) (λ e. omega arith) (ground arith) (ground arith) refl
