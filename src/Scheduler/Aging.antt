-- ===== src/Scheduler/Aging.antt =====
-- How a selection by priority changes the remaining priorities, and the order of the ready list.
use prpl_hypervisor.Base.{
  ◌⊎◌, Bool-cases, ℕ, ◌+◌, ◌≤◌, ◌≡◌, sym, ap, ◌∙◌, subst, ◌≢◌, inl, inr, some, arith, length, All,
  In, All-in, ==-ne, ==-refl, add32, false,
}
use prpl_hypervisor.Machine.{Hypervisor, Vcpu, is_running}
use prpl_hypervisor.Scheduler.{round_robin, take_best}
use prpl_hypervisor.Scheduler.Choose.{
  Choice, urgent_at, best, choose, Answers, choose-Answers, NotUrgent, IsRunning, AtLeast,
}
use prpl_hypervisor.Scheduler.Loops.{rotated}
use prpl_hypervisor.Scheduler.Lowered.{aged, lower_each-In}
use prpl_hypervisor.Scheduler.Select.{
  IsReady, IsWord, ready, lowered, select, select-chosen, full_turn, round_robin_lem,
}
use prpl_hypervisor.Scheduler.Ready.{rotated-IsReady}

abbrev pub given_back : Vcpu → Vcpu
given_back v = record v { priority_rem = v.priority; bgjobs = add32 v.bgjobs 1 }

-- The effect of choosing `p` by priority, on `p` and on each other VCPU `q` of the list: what `p` had
-- left is taken from `q` without wrapping if `q` is running, and a blocked `q` is left alone.
pub record Ages (h : Hypervisor) (p : ℕ) (h' : Hypervisor) : Type 0 where
  pub order : ready h' ≡ ready h
  pub renewed : h'.vcpu p ≡ given_back (h.vcpu p)
  pub others :
      (q : ℕ)
      → In q (ready h)
      → q ≢ p
      → (IsRunning (h.vcpu q)
          × ((h'.vcpu q).priority_rem + (h.vcpu p).priority_rem ≡ (h.vcpu q).priority_rem))
        ⊎ ((is_running (h.vcpu q).state ≡ false) × (h'.vcpu q ≡ h.vcpu q))

select-best : (h : Hypervisor) (p : ℕ) → p ≢ 0 → select h (best p) ≡ (p, take_best p (lowered h p))
unfolding select
select-best h p n = rw (==-ne p 0 n)

ready-lowered : (h : Hypervisor) (p : ℕ) → IsReady h → ready (lowered h p) ≡ ready h
unfolding lowered
ready-lowered h p r =
    ap (λ m. ready (rotated m (rotated (length (ready h)) h))) (sym (ap length (full_turn h r)))
    ∙ full_turn (rotated (length (ready h)) h) (rotated-IsReady (length (ready h)) r (omega arith))
    ∙ full_turn h r

aged_blocked : (by v : Vcpu) → is_running v.state ≡ false → aged by v ≡ v
unfolding aged
aged_blocked by v e = rw e

module _ (h : Hypervisor) (p : ℕ) (r : IsReady h) (i : In p (ready h)) where
  chosen_kept : (lowered h p).vcpu p ≡ h.vcpu p
  unfolding lowered
  chosen_kept = lower_each-In h.vcpu p (ready h) p r.distinct i ∙ rw (==-refl p)

  other_lem :
      (q : ℕ)
      → In q (ready h)
      → q ≢ p
      → (take_best p (lowered h p)).vcpu q ≡ aged (h.vcpu p) (h.vcpu q)
  unfolding lowered take_best
  other_lem q j n =
      rw (==-ne q p n) (lower_each-In h.vcpu p (ready h) q r.distinct j ∙ rw (==-ne q p n))

  renewal : (take_best p (lowered h p)).vcpu p ≡ given_back (h.vcpu p)
  unfolding take_best
  renewal = rw (==-refl p) (ap given_back chosen_kept)

  difference :
      (q : ℕ)
      → In q (ready h)
      → IsRunning (h.vcpu q)
      → (h.vcpu p).priority_rem ≤ (h.vcpu q).priority_rem
      → (aged (h.vcpu p) (h.vcpu q)).priority_rem + (h.vcpu p).priority_rem
        ≡ (h.vcpu q).priority_rem
  unfolding aged
  difference q j run le = ground (arith, All-in (λ x. IsWord (h.vcpu x)) (ready h) r.words q j)

  running_other :
      (q : ℕ)
      → In q (ready h)
      → q ≢ p
      → IsRunning (h.vcpu q)
      → AtLeast h.vcpu (h.vcpu p).priority_rem q
      → ((take_best p (lowered h p)).vcpu q).priority_rem + (h.vcpu p).priority_rem
        ≡ (h.vcpu q).priority_rem
  running_other q j n run (inl stopped) = cc
  running_other q j n run (inr le) =
      subst (λ v. v.priority_rem + (h.vcpu p).priority_rem ≡ (h.vcpu q).priority_rem)
        (sym (other_lem q j n)) (difference q j run le)

  take_best-Ages :
      All (AtLeast h.vcpu (h.vcpu p).priority_rem) (ready h) → Ages h p (take_best p (lowered h p))
  unfolding take_best lowered
  take_best-Ages least = record {
    order = ready-lowered h p r;
    renewed = renewal;
    others = λ q j n. elim (Bool-cases (is_running (h.vcpu q).state)) [
      | inl run ↦ inl (
        run,
        running_other q j n run
            (All-in (AtLeast h.vcpu (h.vcpu p).priority_rem) (ready h) least q j),
      )
      | inr stopped ↦ inr (stopped, other_lem q j n ∙ aged_blocked (h.vcpu p) (h.vcpu q) stopped)
    ];
  }

choice-Ages :
    (h : Hypervisor) (c : Choice) (p : ℕ) (h' : Hypervisor)
    → IsReady h
    → Answers h.vcpu 255 0 (ready h) c
    → All (NotUrgent h.vcpu) (ready h)
    → p ≢ 0
    → select h c ≡ (p, h')
    → In p (ready h) × Ages h p h'
choice-Ages h (urgent_at m x) p h' r a nu n e =
    let calm : NotUrgent h.vcpu x = All-in (NotUrgent h.vcpu) (ready h) nu x a.0 in cc (a.1, calm)
choice-Ages h (best x) p h' r (_, inl (z, al)) nu n e =
    absurd (n (sym (ap (λ s. s.0) e) ∙ select-chosen h (best x) ∙ z))
choice-Ages h (best x) p h' r (_, inr (i, run, lt, al)) nu n e =
    subst (λ y. In y (ready h) × Ages h y h') same
      (
        i,
        subst (Ages h x) (ap (λ s. s.1) (sym (select-best h x (λ z. n (sym same ∙ z))) ∙ e))
            (take_best-Ages h x r i al),
      )
  where
    same : x ≡ p
    same = sym (select-chosen h (best x)) ∙ ap (λ s. s.0) e

-- When no running VCPU of the ready list is critical and the scheduler returns `p`, then `p` is in
-- the list and gets its full priority back, the list keeps its order, and every other VCPU of the
-- list, if there is one, has as much less left as `p` had if it is running, and is unchanged if it
-- is blocked.
pub round_robin-Ages :
    (h : Hypervisor) (p : ℕ) (h' : Hypervisor)
    → IsReady h
    → All (NotUrgent h.vcpu) (ready h)
    → p ≢ 0
    → round_robin h ≡ some (p, h')
    → In p (ready h) × Ages h p h'
round_robin-Ages h p h' r nu n e =
    choice-Ages h (choose h.vcpu 255 0 (ready h)) p h' r (choose-Answers h.vcpu 255 0 (ready h)) nu
      n (ground (arith, round_robin_lem h r))
