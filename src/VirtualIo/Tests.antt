-- ===== src/VirtualIo/Tests.antt =====
-- A guest with one device of sixteen bytes at 0xbf860000.
use prpl_hypervisor.Base.{[], ◌∷◌, ◌==◌, if◌then◌else◌}
use prpl_hypervisor.Machine.{Hypervisor, VmConf}
use prpl_hypervisor.Machine.Sample.{sample}
use prpl_hypervisor.VirtualIo.{no_conf}

abbrev one_device : VmConf
one_device = record no_conf {
  devices_mapping_sz = 1;
  devices = record { start_addr = 0xbf860000; size = 16 } ∷ [];
}

-- The guest asks for its device's second word.
abbrev asking : Hypervisor
asking = record sample {
  cpu = record sample.cpu { gpr = λ set reg. if reg == 4 then 0xbf860004 else 0x55 };
}
