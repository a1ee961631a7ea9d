-- ===== src/Scheduler/Run/Switch.antt =====
-- The result of `run_scheduler` from a well-formed state.
use prpl_hypervisor.Base.{
  ==_iff, List, ℕ, ◌≡◌, refl, sym, ap, ◌∙◌, subst, ◌⊎◌, inl, inr, some, arith, true, false,
  Bool-cases, ◌==◌, add32, In,
}
use prpl_hypervisor.Machine.{Hypervisor, Vcpu}
use prpl_hypervisor.Context.{context_save, context_restore}
use prpl_hypervisor.Scheduler.{round_robin}
use prpl_hypervisor.Scheduler.Choose.{IsSelection}
use prpl_hypervisor.Scheduler.Select.{IsReady, ready}
use prpl_hypervisor.Scheduler.Ready.{with_vcpu, IsWord-of, IsReady-frame}
use prpl_hypervisor.Scheduler.Returns.{Kept, round_robin_selects}
use prpl_hypervisor.Queue.Valid.{contents}
use prpl_hypervisor.Scheduler.Run.{is_due, switch_to, run_scheduler}

-- Whether a VCPU or none is in execution.
abbrev pub IsIdleOr : (ℕ → Type 0) → ℕ → Type 0
IsIdleOr P p = (p ≡ 0) ⊎ P p

context_save_idle : (h : Hypervisor) → h.vcpu_executing ≡ 0 → context_save h ≡ h
unfolding context_save
context_save_idle h e = ground arith

context_save-IsReady :
    (h : Hypervisor)
    → IsReady h
    → IsIdleOr (λ p. In p (ready h)) h.vcpu_executing
    → IsReady (context_save h)
unfolding context_save
context_save-IsReady h r (inl z) = subst IsReady (sym (context_save_idle h z)) r
context_save-IsReady h r (inr i) = elim (Bool-cases (h.vcpu_executing == 0)) [
  | inl z ↦ rw z r
  | inr n ↦ rw n (elim (Bool-cases ((h.vcpu h.vcpu_executing).init == 0)) [
    | inl z ↦
        rw z (with_vcpu h h.vcpu_executing _ h.pending r i (IsWord-of h r h.vcpu_executing i) refl)
    | inr k ↦ rw k r
  ])
]

context_restore-IsReady :
    (cpu_idle : ℕ) (h : Hypervisor)
    → IsReady h
    → IsIdleOr (λ p. In p (ready h)) h.vcpu_executing
    → IsReady (context_restore cpu_idle h)
unfolding context_restore
context_restore-IsReady cpu_idle h r (inl z) =
    rw ((==_iff h.vcpu_executing 0).1 z) (IsReady-frame h.vcpu_executing h.tick_count _ r)
context_restore-IsReady cpu_idle h r (inr i) = elim (Bool-cases (h.vcpu_executing == 0)) [
  | inl z ↦ rw z (IsReady-frame h.vcpu_executing h.tick_count _ r)
  | inr n ↦ rw n (
      IsReady-frame h.vcpu_executing h.tick_count _
        (with_vcpu h h.vcpu_executing _ h.pending r i (IsWord-of h r h.vcpu_executing i) refl))
]

-- What the context switch keeps.
same_ready : (h : Hypervisor) → (context_save h).vcpu_ready_list ≡ h.vcpu_ready_list
unfolding context_save
same_ready h = ground arith

switch_to-IsReady :
    (cpu_idle aux : ℕ) (h : Hypervisor)
    → IsReady h
    → IsIdleOr (λ p. In p (ready h)) h.vcpu_executing
    → IsIdleOr (λ p. In p (ready h)) aux
    → IsReady (switch_to cpu_idle aux h)
unfolding switch_to
switch_to-IsReady cpu_idle aux h r e a = elim (Bool-cases (aux == h.vcpu_executing)) [
  | inl s ↦ rw s r
  | inr n ↦ rw n (
      context_restore-IsReady cpu_idle (record (context_save h) { vcpu_executing = aux })
        (IsReady-frame aux (context_save h).tick_count (context_save h).cpu
          (context_save-IsReady h r e))
        (subst (λ q. IsIdleOr (λ p. In p (contents q)) aux) (sym (same_ready h)) a))
]

executing-switch_to :
    (cpu_idle aux : ℕ) (h : Hypervisor) → (switch_to cpu_idle aux h).vcpu_executing ≡ aux
unfolding switch_to context_restore
executing-switch_to cpu_idle aux h = ground arith

tick_count-switch_to :
    (cpu_idle aux : ℕ) (h : Hypervisor) → (switch_to cpu_idle aux h).tick_count ≡ h.tick_count
unfolding switch_to context_restore context_save
tick_count-switch_to cpu_idle aux h = ground arith

selected : (f : ℕ → Vcpu) (xs : List ℕ) (p : ℕ) → IsSelection f xs p → IsIdleOr (λ q. In q xs) p
selected f xs p (inl (i, u)) = inr i
selected f xs p (inr (nu, inl (z, al))) = inl z
selected f xs p (inr (nu, inr (i, run, lt, al))) = inr i

-- What `run_scheduler` leaves: the invariant holds, a tick is counted, and the VCPU in execution is
-- the old one if no choice is due, and a selection from the ready list if one is.
pub record Scheduled (ticks : ℕ) (h h' : Hypervisor) : Type 0 where
  pub well_formed : IsReady h'
  pub ticks_counted : h'.tick_count ≡ add32 h.tick_count 1
  pub executing :
      ((is_due ticks h ≡ false) × (h'.vcpu_executing ≡ h.vcpu_executing))
      ⊎ ((is_due ticks h ≡ true) × IsSelection h.vcpu (ready h) h'.vcpu_executing)

carried :
    (xs ys : List ℕ)
    → ((q : ℕ) → In q xs → In q ys)
    → (p : ℕ) → IsIdleOr (λ q. In q xs) p
    → IsIdleOr (λ q. In q ys) p
carried xs ys f p (inl z) = inl z
carried xs ys f p (inr i) = inr (f p i)

run_due :
    (ticks cpu_idle : ℕ) (h h1 : Hypervisor) (p : ℕ)
    → is_due ticks h ≡ true
    → round_robin h ≡ some (p, h1)
    → let g = switch_to cpu_idle p h1 in
      run_scheduler ticks cpu_idle h ≡ some (record g { tick_count = add32 g.tick_count 1 })
unfolding run_scheduler
run_due ticks cpu_idle h h1 p due e = rw (due, e, run_scheduler)

due-Scheduled :
    (ticks cpu_idle : ℕ) (h h1 : Hypervisor) (p : ℕ)
    → IsIdleOr (λ q. In q (ready h)) h.vcpu_executing
    → is_due ticks h ≡ true
    → IsSelection h.vcpu (ready h) p
    → Kept h h1
    → let g = switch_to cpu_idle p h1 in
      Scheduled ticks h (record g { tick_count = add32 g.tick_count 1 })
due-Scheduled ticks cpu_idle h h1 p e due picked kept = record {
  well_formed = IsReady-frame g.vcpu_executing (add32 g.tick_count 1) g.cpu (
      switch_to-IsReady cpu_idle p h1 kept.well_formed
        (subst (IsIdleOr (λ q. In q (ready h1))) (sym kept.executing)
          (carried (ready h) (ready h1) kept.members h.vcpu_executing e))
        (carried (ready h) (ready h1) kept.members p (selected h.vcpu (ready h) p picked)));
  ticks_counted = ap (λ t. add32 t 1) (tick_count-switch_to cpu_idle p h1 ∙ kept.ticks);
  executing =
      inr (
        due,
        subst (IsSelection h.vcpu (ready h)) (sym (executing-switch_to cpu_idle p h1)) picked,
      );
}
  where
    g : Hypervisor
    g = switch_to cpu_idle p h1

-- From a well-formed state in which the VCPU in execution, if any, is in the ready list,
-- `run_scheduler` returns, and leaves what `Scheduled` says.
pub run_scheduler-Scheduled :
    (ticks cpu_idle : ℕ) (h : Hypervisor)
    → IsReady h
    → IsIdleOr (λ p. In p (ready h)) h.vcpu_executing
    → (h' : Hypervisor) × (run_scheduler ticks cpu_idle h ≡ some h') × Scheduled ticks h h'
unfolding run_scheduler
run_scheduler-Scheduled ticks cpu_idle h r e = elim (Bool-cases (is_due ticks h)) [
  | inl due ↦
      let (p, h1, returns, picked, kept) = round_robin_selects h r in
      (
        record (switch_to cpu_idle p h1) {
          tick_count = add32 (switch_to cpu_idle p h1).tick_count 1;
        },
        run_due ticks cpu_idle h h1 p due returns,
        due-Scheduled ticks cpu_idle h h1 p e due picked kept,
      )
  | inr idle ↦ (
    record h { tick_count = add32 h.tick_count 1 },
    rw idle,
    record {
      well_formed = IsReady-frame h.vcpu_executing (add32 h.tick_count 1) h.cpu r;
      ticks_counted = refl;
      executing = inl (idle, refl);
    },
  )
]
