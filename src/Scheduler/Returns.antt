-- ===== src/Scheduler/Returns.antt =====
-- The result of `round_robin_scheduler` on a well-formed state.
use prpl_hypervisor.Base.{
  ℕ, ◌≤◌, ◌≡◌, refl, sym, ap, subst, inl, inr, some, arith, length, In, ◌==◌, Bool-cases, take,
  drop, take-append-drop, In-swap,
}
use prpl_hypervisor.Machine.{Hypervisor}
use prpl_hypervisor.Scheduler.{round_robin, take_urgent, take_best}
use prpl_hypervisor.Scheduler.Choose.{
  Choice, urgent_at, best, choose, IsSelection, choose-IsSelection, Answers, choose-Answers,
}
use prpl_hypervisor.Scheduler.Loops.{rotated}
use prpl_hypervisor.Scheduler.Select.{
  select-chosen, full_turn, IsReady, ready, lowered, select, round_robin_lem,
}
use prpl_hypervisor.Scheduler.Ready.{
  Within, choose-Within, ready-rotated, rotated-IsReady, take_urgent-IsReady, take_best-IsReady,
  lowered-IsReady,
}

In-rotated :
    (n : ℕ) (h : Hypervisor) (p : ℕ)
    → IsReady h
    → n ≤ length (ready h)
    → In p (ready h)
    → In p (ready (rotated n h))
In-rotated n h p r k i = subst (In p) (sym (ready-rotated n h r k)) (
    In-swap (take n (ready h)) (drop n (ready h)) p
      (subst (In p) (sym (take-append-drop n (ready h))) i))

In-lowered : (h : Hypervisor) (p q : ℕ) → IsReady h → In q (ready h) → In q (ready (lowered h p))
unfolding lowered
In-lowered h p q r i =
    In-rotated (length (ready h)) (rotated (length (ready h)) h) q
      (rotated-IsReady (length (ready h)) r (omega arith))
      (omega (arith, ap length (full_turn h r)))
      (In-rotated (length (ready h)) h q r (omega arith) i)

best-IsReady : (h : Hypervisor) (p : ℕ) → IsReady h → In p (ready h) → IsReady (select h (best p)).1
unfolding select
best-IsReady h p r i = elim (Bool-cases (p == 0)) [
  | inl z ↦ rw z (rotated-IsReady (length (ready h)) r (omega arith))
  | inr z ↦ rw z (take_best-IsReady (lowered h p) p (lowered-IsReady h p r) (In-lowered h p p r i))
]

-- A selection keeps the invariant.
select-IsReady :
    (h : Hypervisor) (c : Choice)
    → IsReady h
    → Within (length (ready h)) c
    → Answers h.vcpu 255 0 (ready h) c
    → IsReady (select h c).1
unfolding select
select-IsReady h (urgent_at m p) r w a =
    take_urgent-IsReady (rotated m h) p (rotated-IsReady m r w) (In-rotated m h p r w a.0) a.1
select-IsReady h (best p) r w (nu, inl (z, al)) =
    subst (λ q. IsReady (select h (best q)).1) (sym z)
      (rotated-IsReady (length (ready h)) r (omega arith))
select-IsReady h (best p) r w (nu, inr (i, run, lt, al)) = best-IsReady h p r i

In-select :
    (h : Hypervisor) (c : Choice) (q : ℕ)
    → IsReady h
    → Within (length (ready h)) c
    → In q (ready h)
    → In q (ready (select h c).1)
unfolding select take_urgent take_best
In-select h (urgent_at m p) q r w i = In-rotated m h q r w i
In-select h (best p) q r w i = elim (Bool-cases (p == 0)) [
  | inl z ↦ rw z (In-rotated (length (ready h)) h q r (omega arith) i)
  | inr z ↦ rw z (In-lowered h p q r i)
]

executing-select : (h : Hypervisor) (c : Choice) → (select h c).1.vcpu_executing ≡ h.vcpu_executing
unfolding select take_urgent take_best lowered
executing-select h (urgent_at m p) = refl
executing-select h (best p) = ground arith

tick_count-select : (h : Hypervisor) (c : Choice) → (select h c).1.tick_count ≡ h.tick_count
unfolding select take_urgent take_best lowered
tick_count-select h (urgent_at m p) = refl
tick_count-select h (best p) = ground arith

-- A state after `h`: with the invariant, the VCPU in execution, the tick count, and every VCPU of the
-- ready list.
pub record Kept (h h' : Hypervisor) : Type 0 where
  pub well_formed : IsReady h'
  pub executing : h'.vcpu_executing ≡ h.vcpu_executing
  pub ticks : h'.tick_count ≡ h.tick_count
  pub members : (q : ℕ) → In q (ready h) → In q (ready h')

-- From a well-formed state the scheduler returns, leaves a well-formed state with the same VCPU in
-- execution, the same tick count and the VCPUs of the ready list still in it, and returns a selection
-- from the ready list: a running critical VCPU, else a running one of the lowest remaining priority
-- below 255, else NULL.
pub round_robin_selects :
    (h : Hypervisor)
    → IsReady h
    → (p : ℕ) × (h' : Hypervisor) × (round_robin h ≡ some (p, h'))
      × IsSelection h.vcpu (ready h) p
      × Kept h h'
round_robin_selects h r = ((select h c).0, (select h c).1, round_robin_lem h r, picked, after)
  where
    c : Choice
    c = choose h.vcpu 255 0 (ready h)

    picked : IsSelection h.vcpu (ready h) (select h c).0
    picked =
        subst (IsSelection h.vcpu (ready h)) (sym (select-chosen h c))
          (choose-IsSelection h.vcpu (ready h))

    inside : Within (length (ready h)) c
    inside = choose-Within h.vcpu (ready h) 255 0

    after : Kept h (select h c).1
    after = record {
      well_formed = select-IsReady h c r inside (choose-Answers h.vcpu 255 0 (ready h));
      executing = executing-select h c;
      ticks = tick_count-select h c;
      members = λ q i. In-select h c q r inside i;
    }
