-- ===== src/Redirect/Tests.antt =====
-- One redirected interrupt, number 120, for the VCPU that executes and for one that does not.
use prpl_hypervisor.Base.{
  ℕ, suc, refl, ◌≡◌, ◌≢◌, ◌⊎◌, inl, inr, [], ◌∷◌, arith, bit_and, ◌==◌, if◌then◌else◌,
}
use prpl_hypervisor.Machine.{Hypervisor, store, get_guest_ctl2, from_guest_gpr, reg_a0}
use prpl_hypervisor.Machine.Sample.{sample, sample_vm}
use prpl_hypervisor.Queue
use prpl_hypervisor.Scheduler.Sample.{sample-IsReady}
use prpl_hypervisor.Scheduler.{get_vcpu_from_id}
use prpl_hypervisor.Scheduler.Select.{IsReady, ready}
use prpl_hypervisor.Redirect.{
  InterruptMapping, inject, interrupt_injection, reenable_interrupt, is_flagged, guest_bits,
}
use prpl_hypervisor.Redirect.Inject.{
  IsPending, cleared, disabled, inject_lem, interrupt_injection-IsReady,
}
use prpl_hypervisor.Redirect.Reenable.{ReenableOutcome, reenable_interrupt_lem}
use prpl_hypervisor.Redirect.Setup.{IsRedirectable}

abbrev to : ℕ → InterruptMapping
to p = record { irq_number = 120; irq_guest = 0x10; vcpu = p }

-- The flags of the fourth bank are set, and the executing guest has the virtual interrupt pending.
abbrev flagged : Hypervisor
flagged = record sample { cpu = record sample.cpu { device = λ a. 0xffffffff } }

abbrev busy : Hypervisor
busy = record flagged { cpu = record flagged.cpu { cp0 = λ reg sel. 0x10000000 } }

inject_lem_example :
    ((is_flagged flagged (to 200) ≡ 0) × (inject store flagged (to 200) ≡ flagged))
    ⊎ ((is_flagged flagged (to 200) ≢ 0)
        × (((bit_and (get_guest_ctl2 flagged.cpu) (guest_bits (to 200)) ≢ 0)
              × (inject store flagged (to 200) ≡ cleared store flagged (to 200)))
            ⊎ ((bit_and (get_guest_ctl2 flagged.cpu) (guest_bits (to 200)) ≡ 0)
                × ((inject store flagged (to 200)).cpu.device
                    ≡ (disabled store flagged (to 200)).cpu.device)
                × IsPending (inject store flagged (to 200)) (to 200))))
inject_lem_example = inject_lem store flagged (to 200)

interrupt_injection-IsReady_example :
    IsReady (interrupt_injection store sample (to 100 ∷ to 200 ∷ []))
    × (ready (interrupt_injection store sample (to 100 ∷ to 200 ∷ [])) ≡ ready sample)
interrupt_injection-IsReady_example =
    interrupt_injection-IsReady store (to 100 ∷ to 200 ∷ []) sample sample-IsReady
      (inl refl, (inr (inl refl), tt))

reenable_interrupt_lem_example :
    ReenableOutcome store busy
      (from_guest_gpr busy.cpu reg_a0)
      (to 100 ∷ [])
      (reenable_interrupt store (to 100 ∷ []) busy)
reenable_interrupt_lem_example = reenable_interrupt_lem store (to 100 ∷ []) busy

-- The first VM redirects the interrupt 120.
abbrev redirecting : Hypervisor
redirecting = record sample {
  vm = λ p.
      let m = sample_vm (if p == 100 then 1 else if p == 200 then 2 else 3) in
      record m {
        vmconf = record m.vmconf { interrupt_redirect_sz = 1; interrupt_redirect = 120 ∷ [] };
      };
}

redirecting-IsReady : IsReady redirecting
redirecting-IsReady = record {
  valid = omega arith;
  non_null = omega arith;
  distinct = ground arith;
  words = omega arith;
  counted = refl;
}

found : (get_vcpu_from_id redirecting 1 ≡ 100) × (get_vcpu_from_id redirecting 2 ≡ 200)
unfolding get_vcpu_from_id Queue.count Queue.get Queue.slot
found = (refl, refl)

not_null : {p q : ℕ} → p ≡ suc q → p ≢ 0
not_null e z = omega arith

redirecting-IsRedirectable : IsRedirectable redirecting 0 2
redirecting-IsRedirectable = (not_null found.0, refl, (not_null found.1, refl, tt))
