-- ===== src/Redirect/Inject.antt =====
-- What `interrupt_injection` does to the guests.
use prpl_hypervisor.Base.{
  ℕ, ◌^◌, ◌<◌, ◌≡◌, ◌≢◌, refl, sym, ap, ◌∙◌, subst, ◌⊎◌, inl, inr, List, [], ◌∷◌, All, In, arith,
  bit_and, bit_or, bit_and-bit_or, ==-ne,
}
use native.Mathlib.Decide.{ℕ_discrete}
use prpl_hypervisor.Machine.{Hypervisor, Cpu, put_vcpu, get_guest_ctl2, set_guest_ctl2}
use prpl_hypervisor.Scheduler.{fast_interrupt_delivery}
use prpl_hypervisor.Scheduler.Select.{IsReady, ready}
use prpl_hypervisor.Scheduler.Ready.{
  with_vcpu, IsWord-of, IsReady-frame, fast_interrupt_delivery-IsReady,
}
use prpl_hypervisor.Redirect.{
  InterruptMapping, guest_bits, inject_to, inject, interrupt_injection, is_flagged, poke_cpu,
  ifsclr, iecclr, bank, line,
}

-- The VCPU is one of the ready list.
abbrev pub IsMapped : Hypervisor → InterruptMapping → Type 0
IsMapped h m = In m.vcpu (ready h)

-- The virtual interrupt of `m` is pending: in the processor if its VCPU executes, and else in the
-- VCPU, which is then critical.
abbrev pub IsPending : Hypervisor → InterruptMapping → Type 0
IsPending h m =
    ((m.vcpu ≡ h.vcpu_executing) × (bit_and (get_guest_ctl2 h.cpu) (guest_bits m) ≡ guest_bits m))
    ⊎ ((m.vcpu ≢ h.vcpu_executing)
        × (bit_and (h.vcpu m.vcpu).guestclt2 (guest_bits m) ≡ guest_bits m)
        × ((h.vcpu m.vcpu).critical ≢ 0))

pub guest_bits_lt : (m : InterruptMapping) → guest_bits m < 2 ^ 32
guest_bits_lt m = omega arith

fast_interrupt_delivery_away :
    (h : Hypervisor) (p : ℕ)
    → p ≢ h.vcpu_executing
    → let g = fast_interrupt_delivery h p in
      ((g.vcpu p).critical ≢ 0)
      × ((g.vcpu p).guestclt2 ≡ (h.vcpu p).guestclt2)
      × (g.vcpu_executing ≡ h.vcpu_executing)
unfolding fast_interrupt_delivery
fast_interrupt_delivery_away h p n = ground arith

-- The VCPU that gets the virtual interrupt while another one executes.
posted : Hypervisor → InterruptMapping → Hypervisor
posted h m =
    put_vcpu h m.vcpu
      (record (h.vcpu m.vcpu) { guestclt2 = bit_or (h.vcpu m.vcpu).guestclt2 (guest_bits m) })

inject_to_here :
    (h : Hypervisor) (m : InterruptMapping)
    → m.vcpu ≡ h.vcpu_executing
    → inject_to h m
      ≡ record h { cpu = set_guest_ctl2 h.cpu (bit_or (get_guest_ctl2 h.cpu) (guest_bits m)) }
unfolding inject_to
inject_to_here h m e = ground arith

inject_to_away :
    (h : Hypervisor) (m : InterruptMapping)
    → m.vcpu ≢ h.vcpu_executing
    → inject_to h m ≡ fast_interrupt_delivery (posted h m) m.vcpu
unfolding inject_to posted
inject_to_away h m n = ground arith

posted-holds :
    (h : Hypervisor) (m : InterruptMapping)
    → ((posted h m).vcpu m.vcpu).guestclt2 ≡ bit_or (h.vcpu m.vcpu).guestclt2 (guest_bits m)
unfolding posted
posted-holds h m = ground arith

here-IsPending :
    (h : Hypervisor) (m : InterruptMapping)
    → m.vcpu ≡ h.vcpu_executing
    → IsPending
        (record h { cpu = set_guest_ctl2 h.cpu (bit_or (get_guest_ctl2 h.cpu) (guest_bits m)) })
        m
unfolding get_guest_ctl2 set_guest_ctl2
here-IsPending h m e = inl (e, bit_and-bit_or 32 _ (guest_bits m) (guest_bits_lt m))

away-IsPending :
    (h : Hypervisor) (m : InterruptMapping)
    → m.vcpu ≢ h.vcpu_executing
    → IsPending (fast_interrupt_delivery (posted h m) m.vcpu) m
unfolding posted
away-IsPending h m n =
    let away = fast_interrupt_delivery_away (posted h m) m.vcpu n in
    inr (
      (λ e. n (e ∙ away.2)),
      ap (λ x. bit_and x (guest_bits m)) (away.1 ∙ posted-holds h m)
          ∙ bit_and-bit_or 32 (h.vcpu m.vcpu).guestclt2 (guest_bits m) (guest_bits_lt m),
      away.0,
    )

inject_to-IsPending : (h : Hypervisor) (m : InterruptMapping) → IsPending (inject_to h m) m
inject_to-IsPending h m = elim (ℕ_discrete m.vcpu h.vcpu_executing) [
  | yes e ↦ subst (λ g. IsPending g m) (sym (inject_to_here h m e)) (here-IsPending h m e)
  | no n ↦ subst (λ g. IsPending g m) (sym (inject_to_away h m n)) (away-IsPending h m n)
]

posted-IsReady :
    (h : Hypervisor) (m : InterruptMapping) → IsReady h → IsMapped h m → IsReady (posted h m)
unfolding posted
posted-IsReady h m r i =
    with_vcpu h m.vcpu
      (record (h.vcpu m.vcpu) { guestclt2 = bit_or (h.vcpu m.vcpu).guestclt2 (guest_bits m) })
      h.pending r i (IsWord-of h r m.vcpu i) refl

inject_to-IsReady :
    (h : Hypervisor) (m : InterruptMapping) → IsReady h → IsMapped h m → IsReady (inject_to h m)
unfolding posted
inject_to-IsReady h m r i = elim (ℕ_discrete m.vcpu h.vcpu_executing) [
  | yes e ↦ subst IsReady (sym (inject_to_here h m e)) (
      IsReady-frame h.vcpu_executing h.tick_count
        (set_guest_ctl2 h.cpu (bit_or (get_guest_ctl2 h.cpu) (guest_bits m))) r)
  | no n ↦
      subst IsReady (sym (inject_to_away h m n))
        (fast_interrupt_delivery-IsReady (posted h m) m.vcpu (posted-IsReady h m r i) i)
]

ready-inject_to : (h : Hypervisor) (m : InterruptMapping) → ready (inject_to h m) ≡ ready h
unfolding inject_to fast_interrupt_delivery
ready-inject_to h m = ground arith

IsMapped-on :
    (ms : List InterruptMapping) (h g : Hypervisor)
    → ready h ≡ ready g
    → All (IsMapped h) ms
    → All (IsMapped g) ms
IsMapped-on [] h g e a = tt
IsMapped-on (m ∷ ms) h g e a = (subst (In m.vcpu) e a.0, IsMapped-on ms h g e a.1)

module _ (poke : (ℕ → ℕ) → ℕ → ℕ → ℕ → ℕ) where
  -- The processor after the flag is cleared, and after the interrupt is disabled as well.
  abbrev pub cleared : Hypervisor → InterruptMapping → Hypervisor
  cleared h m = record h {
    cpu = poke_cpu poke h.cpu (ifsclr (bank m.irq_number)) (line m.irq_number);
  }

  abbrev pub disabled : Hypervisor → InterruptMapping → Hypervisor
  disabled h m = record h {
    cpu = poke_cpu poke (cleared h m).cpu (iecclr (bank m.irq_number)) (line m.irq_number);
  }

  inject_idle : (h : Hypervisor) (m : InterruptMapping) → is_flagged h m ≡ 0 → inject poke h m ≡ h
  unfolding inject
  inject_idle h m z = rw z refl

  inject_dropped :
      (h : Hypervisor) (m : InterruptMapping)
      → is_flagged h m ≢ 0
      → bit_and (get_guest_ctl2 h.cpu) (guest_bits m) ≢ 0
      → inject poke h m ≡ cleared h m
  unfolding inject get_guest_ctl2
  inject_dropped h m n b =
      rw (==-ne (is_flagged h m) 0 n, ==-ne (bit_and (get_guest_ctl2 h.cpu) (guest_bits m)) 0 b)
        refl

  inject_taken :
      (h : Hypervisor) (m : InterruptMapping)
      → is_flagged h m ≢ 0
      → bit_and (get_guest_ctl2 h.cpu) (guest_bits m) ≡ 0
      → inject poke h m ≡ inject_to (disabled h m) m
  unfolding inject get_guest_ctl2
  inject_taken h m n z = rw (==-ne (is_flagged h m) 0 n, z) refl

  device-inject_to :
      (h : Hypervisor) (m : InterruptMapping) → (inject_to h m).cpu.device ≡ h.cpu.device
  unfolding inject_to fast_interrupt_delivery set_guest_ctl2
  device-inject_to h m = ground arith

  -- A device interrupt that is not flagged changes nothing. If it is flagged, its flag is cleared; and
  -- when none of its bits is set in the processor, the interrupt is disabled as well and the virtual
  -- interrupt becomes pending: in the processor if its guest executes, and else in its VCPU, which
  -- becomes critical.
  pub inject_lem :
      (h : Hypervisor) (m : InterruptMapping)
      → ((is_flagged h m ≡ 0) × (inject poke h m ≡ h))
        ⊎ ((is_flagged h m ≢ 0)
            × (((bit_and (get_guest_ctl2 h.cpu) (guest_bits m) ≢ 0)
                  × (inject poke h m ≡ cleared h m))
                ⊎ ((bit_and (get_guest_ctl2 h.cpu) (guest_bits m) ≡ 0)
                    × ((inject poke h m).cpu.device ≡ (disabled h m).cpu.device)
                    × IsPending (inject poke h m) m)))
  inject_lem h m = elim (ℕ_discrete (is_flagged h m) 0) [
    | yes z ↦ inl (z, inject_idle h m z)
    | no n ↦ elim (ℕ_discrete (bit_and (get_guest_ctl2 h.cpu) (guest_bits m)) 0) [
      | yes z ↦ inr (
        n,
        inr (
          z,
          ap (λ g. g.cpu.device) (inject_taken h m n z) ∙ device-inject_to (disabled h m) m,
          subst (λ g. IsPending g m) (sym (inject_taken h m n z))
              (inject_to-IsPending (disabled h m) m),
        ),
      )
      | no b ↦ inr (n, inl (b, inject_dropped h m n b))
    ]
  ]

  inject-IsReady :
      (h : Hypervisor) (m : InterruptMapping)
      → IsReady h
      → IsMapped h m
      → IsReady (inject poke h m) × (ready (inject poke h m) ≡ ready h)
  inject-IsReady h m r i = elim (ℕ_discrete (is_flagged h m) 0) [
    | yes z ↦ keep (inject_idle h m z) r refl
    | no n ↦ elim (ℕ_discrete (bit_and (get_guest_ctl2 h.cpu) (guest_bits m)) 0) [
      | yes z ↦
          keep (inject_taken h m n z)
            (inject_to-IsReady (disabled h m) m (same (disabled h m).cpu) i)
            (ready-inject_to (disabled h m) m)
      | no b ↦ keep (inject_dropped h m n b) (same (cleared h m).cpu) refl
    ]
  ]
    where
      same : (c : Cpu) → IsReady (record h { cpu = c })
      same c = IsReady-frame h.vcpu_executing h.tick_count c r

      keep :
          {g : Hypervisor}
          → inject poke h m ≡ g
          → IsReady g
          → ready g ≡ ready h
          → IsReady (inject poke h m) × (ready (inject poke h m) ≡ ready h)
      keep e s t = (subst IsReady (sym e) s, ap ready e ∙ t)

  -- With every interrupt redirected to a VCPU of the ready list, `interrupt_injection` keeps the
  -- scheduler's invariant and the ready list.
  pub interrupt_injection-IsReady :
      (ms : List InterruptMapping) (h : Hypervisor)
      → IsReady h
      → All (IsMapped h) ms
      → IsReady (interrupt_injection poke h ms) × (ready (interrupt_injection poke h ms) ≡ ready h)
  unfolding interrupt_injection
  interrupt_injection-IsReady [] h r a = (r, refl)
  interrupt_injection-IsReady (m ∷ ms) h r a =
      let (kept, same) = inject-IsReady h m r a.0 in
      let (rest, list) =
        interrupt_injection-IsReady ms (inject poke h m) kept
          (IsMapped-on ms h (inject poke h m) (sym same) a.1) in
      (rest, list ∙ same)
