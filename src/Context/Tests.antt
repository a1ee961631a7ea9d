-- ===== src/Context/Tests.antt =====
-- A guest that is saved, and restored after its registers and VCPU changed.
use prpl_hypervisor.Base.{◌≡◌, refl, arith}
use prpl_hypervisor.Machine.{Hypervisor, mfgc0, get_epc, get_guest_ctl2}
use prpl_hypervisor.Machine.Sample.{sample}
use prpl_hypervisor.Context.{context_save, context_restore}
use prpl_hypervisor.Context.Roundtrip.{SameRegisters, restore-save}

-- The processor ran another guest meanwhile, and an interrupt was posted.
abbrev later : Hypervisor
unfolding context_save
later = record (context_save sample) {
  cpu = record sample.cpu { gcp0 = λ reg sel. 1 };
  vcpu = λ p. record ((context_save sample).vcpu p) { guestclt2 = 0x2000000 };
}

restore-save_example :
    SameRegisters sample.cpu (context_restore 0x80001000 later).cpu
    × (get_epc (context_restore 0x80001000 later).cpu ≡ get_epc sample.cpu)
    × (get_guest_ctl2 (context_restore 0x80001000 later).cpu ≡ 0x2000000)
    × (mfgc0 (context_restore 0x80001000 later).cpu 11 0 ≡ 1)
unfolding later
restore-save_example = restore-save 0x80001000 sample later (λ e. omega arith) refl refl refl refl
