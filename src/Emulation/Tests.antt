-- ===== src/Emulation/Tests.antt =====
-- A guest reads WatchLo, `mfc0 $9, $18`.
use prpl_hypervisor.Base.{◌+◌, ◌==◌, if◌then◌else◌}
use prpl_hypervisor.Emulation.{Baikal, instruction_emulation}
use prpl_hypervisor.Emulation.Effect.{Emulates, instruction_emulation_lem}

abbrev reading : Baikal
reading = record {
  cp0 = λ reg sel. if reg == 8 then 0x40099000 else 0;
  gcp0 = λ reg sel. reg + sel;
  word_at = λ a. a;
}

instruction_emulation_lem_example :
    Emulates 0x80010000 reading 0x40099000 (instruction_emulation 0x80010000 reading)
instruction_emulation_lem_example = instruction_emulation_lem 0x80010000 reading
