-- ===== src/Timer/Tick.antt =====
-- What the timer interrupt does for the scheduler and for the guest.
use prpl_hypervisor.Base.{
  ℕ, ◌+◌, ◌≤◌, ◌<◌, ◌^◌, ◌≡◌, refl, ◌⊎◌, inl, inr, some, arith, In, Bool-cases, true, false, leb,
  sub32, bit_or,
}
use prpl_hypervisor.Machine.{Hypervisor, get_guest_ctl2, set_guest_ctl2}
use prpl_hypervisor.Context.{timer_bit}
use prpl_hypervisor.Scheduler.Select.{IsReady, ready}
use prpl_hypervisor.Scheduler.Ready.{IsReady-frame}
use prpl_hypervisor.Scheduler.Run.{run_scheduler}
use prpl_hypervisor.Scheduler.Run.Switch.{IsIdleOr, Scheduled, run_scheduler-Scheduled}
use prpl_hypervisor.Timer.{timer_interrupt_handler, calc_next_timer_interrupt, diff_time}

-- Between two readings of the counter `diff_time` is the time that passed, modulo 2^32, if the counter
-- did not wrap, and one less than it if it did.
pub diff_time_lem :
    (now past : ℕ)
    → now < 2 ^ 32
    → past < 2 ^ 32
    → ((past ≤ now) × (diff_time now past ≡ sub32 now past))
      ⊎ ((now < past) × (diff_time now past + 1 ≡ sub32 now past))
unfolding diff_time
diff_time_lem now past h k = ground arith

-- Whether the guest gets its virtual timer interrupt, and what `past` becomes.
abbrev pub Injects : ℕ → ℕ → ℕ → Hypervisor → ℕ → Hypervisor → Type 0
Injects guest_interval now past g past' h' =
    ((guest_interval ≤ diff_time now past)
      × (past' ≡ now)
      × (get_guest_ctl2 h'.cpu ≡ bit_or (get_guest_ctl2 g.cpu) timer_bit))
    ⊎ ((diff_time now past < guest_interval) × (past' ≡ past) × (h' ≡ g))

handler_due :
    (interval guest_interval ticks cpu_idle count now past : ℕ) (h g : Hypervisor)
    → run_scheduler ticks cpu_idle
        (record h { cpu = calc_next_timer_interrupt count interval h.cpu })
      ≡ some g
    → leb guest_interval (diff_time now past) ≡ true
    → timer_interrupt_handler interval guest_interval ticks cpu_idle count now past h
      ≡ some
          (now, record g { cpu = set_guest_ctl2 g.cpu (bit_or (get_guest_ctl2 g.cpu) timer_bit) })
unfolding timer_interrupt_handler
handler_due interval guest_interval ticks cpu_idle count now past h g e d =
    rw (e, d, timer_interrupt_handler) refl

handler_early :
    (interval guest_interval ticks cpu_idle count now past : ℕ) (h g : Hypervisor)
    → run_scheduler ticks cpu_idle
        (record h { cpu = calc_next_timer_interrupt count interval h.cpu })
      ≡ some g
    → leb guest_interval (diff_time now past) ≡ false
    → timer_interrupt_handler interval guest_interval ticks cpu_idle count now past h
      ≡ some (past, g)
unfolding timer_interrupt_handler
handler_early interval guest_interval ticks cpu_idle count now past h g e d =
    rw (e, d, timer_interrupt_handler) refl

-- On a well-formed state in which the VCPU in execution, if any, is in the ready list, the timer's
-- handler returns a well-formed state: the scheduler ran to `g`, with the Compare register set, and the
-- guest that `g` executes gets a virtual timer interrupt just when `diff_time` reaches the guest's
-- interval, from which the time is then counted again.
pub timer_interrupt_handler_lem :
    (interval guest_interval ticks cpu_idle count now past : ℕ) (h : Hypervisor)
    → IsReady h
    → IsIdleOr (λ p. In p (ready h)) h.vcpu_executing
    → let started = record h { cpu = calc_next_timer_interrupt count interval h.cpu } in
      (g : Hypervisor) × (past' : ℕ) × (h' : Hypervisor) × (timer_interrupt_handler interval
          guest_interval ticks cpu_idle count now past h
        ≡ some (past', h'))
      × (run_scheduler ticks cpu_idle started ≡ some g)
      × Scheduled ticks started g
      × Injects guest_interval now past g past' h'
      × IsReady h'
unfolding get_guest_ctl2 set_guest_ctl2
timer_interrupt_handler_lem interval guest_interval ticks cpu_idle count now past h r e =
    let (g, returns, scheduled) = run_scheduler-Scheduled ticks cpu_idle started sound e in
    elim (Bool-cases (leb guest_interval (diff_time now past))) [
      | inl due ↦ (
        g,
        now,
        record g { cpu = set_guest_ctl2 g.cpu (bit_or (get_guest_ctl2 g.cpu) timer_bit) },
        handler_due interval guest_interval ticks cpu_idle count now past h g returns due,
        returns,
        scheduled,
        inl (ground arith, refl, refl),
        IsReady-frame g.vcpu_executing g.tick_count
            (set_guest_ctl2 g.cpu (bit_or (get_guest_ctl2 g.cpu) timer_bit)) scheduled.well_formed,
      )
      | inr early ↦ (
        g,
        past,
        g,
        handler_early interval guest_interval ticks cpu_idle count now past h g returns early,
        returns,
        scheduled,
        inr (ground arith, refl, refl),
        scheduled.well_formed,
      )
    ]
  where
    started : Hypervisor
    started = record h { cpu = calc_next_timer_interrupt count interval h.cpu }

    sound : IsReady started
    sound =
        IsReady-frame h.vcpu_executing h.tick_count (calc_next_timer_interrupt count interval h.cpu)
          r
