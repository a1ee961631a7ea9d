-- ===== src/Redirect/Reenable.antt =====
-- What `reenable_interrupt` does for the guest that calls it.
use prpl_hypervisor.Base.{
  ℕ, ◌≡◌, ◌≢◌, refl, sym, ap, ◌∙◌, subst, ◌⊎◌, inl, inr, List, [], ◌∷◌, All, In, arith, bit_and,
  bit_and-bit_and_complement,
}
use native.Mathlib.Decide.{ℕ_discrete}
use prpl_hypervisor.Machine.{
  Hypervisor, from_guest_gpr, to_guest_gpr, from_guest_gpr-to_guest_gpr, reg_v0, reg_a0, put_vcpu,
  complement,
}
use prpl_hypervisor.Redirect.{
  InterruptMapping, guest_bits, reenable, reenable_interrupt, poke_cpu, iecset, bank, line,
}
use prpl_hypervisor.Redirect.Inject.{guest_bits_lt}

-- The executing VCPU asks for this mapping by the guest's number of the interrupt.
abbrev pub IsAsked : Hypervisor → ℕ → InterruptMapping → Type 0
IsAsked h interrupt m = (h.vcpu_executing ≡ m.vcpu) × (interrupt ≡ m.irq_guest)

module _ (poke : (ℕ → ℕ) → ℕ → ℕ → ℕ → ℕ) where
  -- The interrupt of `m` is enabled, its virtual interrupt is no longer pending in the VCPU, and the
  -- guest reads 0.
  abbrev pub Reenables : Hypervisor → InterruptMapping → Hypervisor → Type 0
  Reenables h m g =
      (g.cpu.device ≡ poke h.cpu.device (iecset (bank m.irq_number)) (line m.irq_number))
      × (bit_and (g.vcpu m.vcpu).guestclt2 (guest_bits m) ≡ 0)
      × (from_guest_gpr g.cpu reg_v0 ≡ 0)

  abbrev pub ReenableOutcome : Hypervisor → ℕ → List InterruptMapping → Hypervisor → Type 0
  ReenableOutcome h interrupt ms g =
      ((m : InterruptMapping) × In m ms × IsAsked h interrupt m × Reenables h m g)
      ⊎ (All (λ m. ¬ IsAsked h interrupt m) ms
          × (g ≡ record h { cpu = to_guest_gpr h.cpu reg_v0 1 }))

  -- The state in which the handler returns for the mapping `m`.
  reenabled : Hypervisor → InterruptMapping → Hypervisor
  reenabled h m =
      let v = h.vcpu m.vcpu in
      record (put_vcpu h m.vcpu
        (record v { guestclt2 = bit_and v.guestclt2 (complement (guest_bits m)) })) {
          cpu =
              to_guest_gpr (poke_cpu poke h.cpu (iecset (bank m.irq_number)) (line m.irq_number))
                reg_v0 0;
        }

  cleared_in :
      (h : Hypervisor) (m : InterruptMapping)
      → ((reenabled h m).vcpu m.vcpu).guestclt2
        ≡ bit_and (h.vcpu m.vcpu).guestclt2 (complement (guest_bits m))
  unfolding reenabled
  cleared_in h m = ground arith

  reenabled-Reenables : (h : Hypervisor) (m : InterruptMapping) → Reenables h m (reenabled h m)
  unfolding reenabled to_guest_gpr
  reenabled-Reenables h m = (
    refl,
    ap (λ x. bit_and x (guest_bits m)) (cleared_in h m)
        ∙ bit_and-bit_and_complement 32 (h.vcpu m.vcpu).guestclt2 (guest_bits m) (guest_bits_lt m),
    from_guest_gpr-to_guest_gpr
        (poke_cpu poke h.cpu (iecset (bank m.irq_number)) (line m.irq_number)) reg_v0 0,
  )

  reenable_found :
      (h : Hypervisor) (interrupt : ℕ) (m : InterruptMapping) (ms : List InterruptMapping)
      → IsAsked h interrupt m
      → reenable poke h interrupt (m ∷ ms) ≡ reenabled h m
  unfolding reenable reenabled
  reenable_found h interrupt m ms a = ground (arith, a)

  reenable_skipped :
      (h : Hypervisor) (interrupt : ℕ) (m : InterruptMapping) (ms : List InterruptMapping)
      → (h.vcpu_executing ≢ m.vcpu) ⊎ (interrupt ≢ m.irq_guest)
      → reenable poke h interrupt (m ∷ ms) ≡ reenable poke h interrupt ms
  unfolding reenable
  reenable_skipped h interrupt m ms n = ground (arith, n)

  later :
      (h : Hypervisor) (interrupt : ℕ) (m : InterruptMapping) (ms : List InterruptMapping)
      (g : Hypervisor)
      → ¬ IsAsked h interrupt m
      → ReenableOutcome h interrupt ms g
      → ReenableOutcome h interrupt (m ∷ ms) g
  later h interrupt m ms g n (inl (k, i, a, r)) = inl (k, inr i, a, r)
  later h interrupt m ms g n (inr (all, e)) = inr ((n, all), e)

  skip :
      (h : Hypervisor) (interrupt : ℕ) (m : InterruptMapping) (ms : List InterruptMapping)
      → (h.vcpu_executing ≢ m.vcpu) ⊎ (interrupt ≢ m.irq_guest)
      → ¬ IsAsked h interrupt m
      → ReenableOutcome h interrupt ms (reenable poke h interrupt ms)
      → ReenableOutcome h interrupt (m ∷ ms) (reenable poke h interrupt (m ∷ ms))
  skip h interrupt m ms other n o =
      subst (ReenableOutcome h interrupt (m ∷ ms)) (sym (reenable_skipped h interrupt m ms other))
        (later h interrupt m ms (reenable poke h interrupt ms) n o)

  reenable_lem :
      (ms : List InterruptMapping) (h : Hypervisor) (interrupt : ℕ)
      → ReenableOutcome h interrupt ms (reenable poke h interrupt ms)
  unfolding reenable
  reenable_lem [] h interrupt = inr (tt, refl)
  reenable_lem (m ∷ ms) h interrupt =
      let rest = reenable_lem ms h interrupt in
      elim (ℕ_discrete h.vcpu_executing m.vcpu) [
        | no n ↦ skip h interrupt m ms (inl n) (λ a. n a.0) rest
        | yes e ↦ elim (ℕ_discrete interrupt m.irq_guest) [
          | no n ↦ skip h interrupt m ms (inr n) (λ a. n a.1) rest
          | yes k ↦ inl (
            m,
            inl refl,
            (e, k),
            subst (Reenables h m) (sym (reenable_found h interrupt m ms (e, k)))
                (reenabled-Reenables h m),
          )
        ]
      ]

  -- For the interrupt of the guest in a0, `reenable_interrupt` either finds a mapping of the executing
  -- VCPU with that number: then it enables the device's interrupt, clears the virtual interrupt's bits in
  -- the VCPU, and the guest reads 0; or there is no such mapping, and all that changes is that the guest
  -- gets 1.
  pub reenable_interrupt_lem :
      (mapping : List InterruptMapping) (h : Hypervisor)
      → ReenableOutcome h (from_guest_gpr h.cpu reg_a0) mapping (reenable_interrupt poke mapping h)
  unfolding reenable_interrupt
  reenable_interrupt_lem mapping h = reenable_lem mapping h (from_guest_gpr h.cpu reg_a0)
