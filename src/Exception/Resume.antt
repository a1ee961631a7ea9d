-- ===== src/Exception/Resume.antt =====
-- What a guest finds after its exit.
use prpl_hypervisor.Base.{
  ℕ, ◌≡◌, ◌≢◌, refl, sym, ap, ◌∙◌, subst, ◌⊎◌, inl, inr, Option, some, List, arith, add32, In,
  All-in, true, false, Bool-cases, ==-refl,
}
use prpl_hypervisor.Machine.{Hypervisor, is_running, get_epc, set_epc}
use prpl_hypervisor.Scheduler.Choose.{IsRunning, IsSelection}
use prpl_hypervisor.Scheduler.Loops.{NonNull}
use prpl_hypervisor.Scheduler.Select.{IsReady, ready}
use prpl_hypervisor.Scheduler.Ready.{with_vcpu, IsWord-of, IsReady-frame}
use prpl_hypervisor.Scheduler.Run.{run_scheduler, is_due}
use prpl_hypervisor.Scheduler.Run.Switch.{Scheduled, run_scheduler-Scheduled}
use prpl_hypervisor.Exception.{
  step_over, serve, guest_exit_exception, general_exception_handler, get_cause_code,
}

step_over-IsReady :
    (g : Hypervisor) (epc : ℕ)
    → IsReady g
    → In g.vcpu_executing (ready g)
    → IsReady (step_over g epc)
unfolding step_over
step_over-IsReady g epc r i =
    IsReady-frame g.vcpu_executing g.tick_count (set_epc g.cpu (add32 epc 4)) (
      with_vcpu g g.vcpu_executing (record (g.vcpu g.vcpu_executing) { pc = add32 epc 4 }) g.pending
        r i (IsWord-of g r g.vcpu_executing i) refl)

-- The guest goes on at `pc`, in the processor and in its VCPU.
abbrev pub ResumesAt : ℕ → Hypervisor → Type 0
ResumesAt pc h = (get_epc h.cpu ≡ pc) × ((h.vcpu h.vcpu_executing).pc ≡ pc)

step_over-ResumesAt : (g : Hypervisor) (epc : ℕ) → ResumesAt (add32 epc 4) (step_over g epc)
unfolding step_over get_epc set_epc
step_over-ResumesAt g epc = (refl, rw (==-refl g.vcpu_executing) refl)

step_over_frame :
    (g : Hypervisor) (epc : ℕ)
    → let g' = step_over g epc in
      ((g'.vcpu g'.vcpu_executing).state ≡ (g.vcpu g.vcpu_executing).state)
      × (g'.vcpu_executing ≡ g.vcpu_executing)
      × (g'.tick_count ≡ g.tick_count)
      × (ready g' ≡ ready g)
unfolding step_over
step_over_frame g epc = (rw (==-refl g.vcpu_executing) refl, refl, refl, refl)

due-IsSelection :
    {ticks : ℕ} {h h' : Hypervisor}
    → Scheduled ticks h h'
    → is_due ticks h ≡ true
    → IsSelection h.vcpu (ready h) h'.vcpu_executing
due-IsSelection s d = elim s.executing [
  | inl (n, e) ↦ absurd (ground (arith, n, d))
  | inr (e, chosen) ↦ chosen
]

due_blocked :
    (ticks : ℕ) (g : Hypervisor)
    → g.vcpu_executing ≢ 0
    → is_running (g.vcpu g.vcpu_executing).state ≡ false
    → is_due ticks g ≡ true
unfolding is_due
due_blocked ticks g n e = ground arith

module _ {ℓ} {H : Type ℓ} (table : List (Option H)) (run : H → Hypervisor → Option Hypervisor)
    (ticks cpu_idle : ℕ) where
  handler_running :
      (h g : Hypervisor)
      → get_cause_code h.cpu ≡ 0x1b
      → serve table run h ≡ some g
      → let g' = step_over g (get_epc h.cpu) in
        is_running (g'.vcpu g'.vcpu_executing).state ≡ true
        → general_exception_handler table run ticks cpu_idle h ≡ some g'
  unfolding general_exception_handler
  handler_running h g c s e = rw (c, s, e, guest_exit_exception) refl

  handler_blocked :
      (h g : Hypervisor)
      → get_cause_code h.cpu ≡ 0x1b
      → serve table run h ≡ some g
      → let g' = step_over g (get_epc h.cpu) in
        is_running (g'.vcpu g'.vcpu_executing).state ≡ false
        → general_exception_handler table run ticks cpu_idle h ≡ run_scheduler ticks cpu_idle g'
  unfolding general_exception_handler
  handler_blocked h g c s e = rw (c, s, e, guest_exit_exception) refl

  -- A guest exit whose service returns `g`, a well-formed state in which a VCPU of the ready list
  -- executes, returns a well-formed state: with a running guest it goes on behind the instruction that
  -- made it exit, and with a blocked one a selection from the ready list executes and a tick is counted.
  pub general_exception_handler_lem :
      (h g : Hypervisor)
      → get_cause_code h.cpu ≡ 0x1b
      → serve table run h ≡ some g
      → IsReady g
      → In g.vcpu_executing (ready g)
      → let g' = step_over g (get_epc h.cpu) in
        (h' : Hypervisor) × (general_exception_handler table run ticks cpu_idle h ≡ some h')
        × IsReady h'
        × ((IsRunning (g.vcpu g.vcpu_executing)
              × (h'.vcpu_executing ≡ g.vcpu_executing)
              × ResumesAt (add32 (get_epc h.cpu) 4) h')
            ⊎ ((is_running (g.vcpu g.vcpu_executing).state ≡ false)
                × IsSelection g'.vcpu (ready g') h'.vcpu_executing
                × (h'.tick_count ≡ add32 g.tick_count 1)))
  general_exception_handler_lem h g c s r i =
      elim (Bool-cases (is_running (g.vcpu g.vcpu_executing).state)) [
        | inl e ↦ (
          step_over g (get_epc h.cpu),
          handler_running h g c s (ap is_running (frame.0) ∙ e),
          after,
          inl (e, frame.1, step_over-ResumesAt g (get_epc h.cpu)),
        )
        | inr e ↦
            let (h', returns, scheduled) =
              run_scheduler-Scheduled ticks cpu_idle (step_over g (get_epc h.cpu)) after (
                inr (
                  subst (λ l. In (step_over g (get_epc h.cpu)).vcpu_executing l) (sym frame.3)
                    (subst (λ p. In p (ready g)) (sym frame.1) i))) in
            (
              h',
              handler_blocked h g c s (ap is_running (frame.0) ∙ e) ∙ returns,
              scheduled.well_formed,
              inr (
                e,
                due-IsSelection scheduled (
                    due_blocked ticks (step_over g (get_epc h.cpu)) executes
                      (ap is_running (frame.0) ∙ e)),
                scheduled.ticks_counted ∙ ap (λ t. add32 t 1) frame.2,
              ),
            )
      ]
    where
      frame :
          let g' = step_over g (get_epc h.cpu) in
          ((g'.vcpu g'.vcpu_executing).state ≡ (g.vcpu g.vcpu_executing).state)
          × (g'.vcpu_executing ≡ g.vcpu_executing)
          × (g'.tick_count ≡ g.tick_count)
          × (ready g' ≡ ready g)
      frame = step_over_frame g (get_epc h.cpu)

      after : IsReady (step_over g (get_epc h.cpu))
      after = step_over-IsReady g (get_epc h.cpu) r i

      executes : (step_over g (get_epc h.cpu)).vcpu_executing ≢ 0
      executes z = All-in NonNull (ready g) r.non_null g.vcpu_executing i (sym frame.1 ∙ z)
