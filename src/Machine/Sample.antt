-- ===== src/Machine/Sample.antt =====
-- A small machine for the tests: three VCPUs at the addresses 100, 200 and 300, each of its own VM at
-- the same address, of which 100 executes and 300 has never run.
use prpl_hypervisor.Base.{ℕ, ◌+◌, [], ◌∷◌, replicate, ◌==◌, if◌then◌else◌}
use prpl_hypervisor.Machine.{Hypervisor, Vcpu, Vm, Cpu, Message, MessageBuffer, running}

abbrev pub blank : Message
blank = record { source_id = 0; size = 0; message = replicate 256 0 }

abbrev pub no_messages : MessageBuffer
no_messages = record {
  in_index = 0;
  out_index = 0;
  num_messages = 0;
  message_list = replicate 5 blank;
}

abbrev pub sample_vcpu : ℕ → ℕ → ℕ → ℕ → Vcpu
sample_vcpu address id priority init = record {
  id = id;
  priority = priority;
  priority_rem = priority;
  critical = 0;
  state = running;
  bgjobs = 0;
  gprshadowset = id;
  cp0_registers = replicate 16 0;
  guestclt2 = 0;
  vm = address;
  pc = 0x80000000;
  init = init;
  messages = no_messages;
  gpr = 0;
}

abbrev pub sample_vm : ℕ → Vm
sample_vm id = record {
  id = id;
  base_addr = 0x80010000;
  os_type = 0;
  init = 0;
  vmconf = record {
    ram_base = 0x80010000;
    os_type = 0;
    priority = 10;
    fast_int_sz = 0;
    fast_interrupts = [];
    interrupt_redirect_sz = 0;
    interrupt_redirect = [];
    num_tlb_entries = 0;
    tlb = [];
    devices_mapping_sz = 0;
    devices = [];
  };
  ntlbent = 0;
  tlbentries = [];
}

abbrev pub sample_cpu : Cpu
sample_cpu = record {
  cp0 = λ reg sel. 0;
  gcp0 = λ reg sel. reg + sel;
  gpr = λ set reg. 0;
  tlb = λ i. record { guestctl1 = 0; entrylo0 = 0; entrylo1 = 0; pagemask = 0; entryhi = 0 };
  byte = λ a. a;
  device = λ a. 0;
}

abbrev pub sample : Hypervisor
sample = record {
  vcpu = λ p.
      if p == 100
      then sample_vcpu 100 1 30 0
      else if p == 200
      then sample_vcpu 200 2 20 0
      else sample_vcpu 300 3 40 1;
  vm = λ p. sample_vm (if p == 100 then 1 else if p == 200 then 2 else 3);
  vcpu_ready_list = record {
    size = 5;
    elem = 3;
    head = 3;
    tail = 1;
    slots = 300 ∷ 0 ∷ 0 ∷ 100 ∷ 200 ∷ [];
  };
  vcpu_executing = 100;
  tick_count = 0;
  pending = 0;
  cpu = sample_cpu;
}
