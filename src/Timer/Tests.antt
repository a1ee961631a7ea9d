-- ===== src/Timer/Tests.antt =====
-- Timer interrupts of the sample machine, before and after the counter wraps.
use prpl_hypervisor.Base.{ℕ, ◌≡◌, refl, inl, inr, some}
use prpl_hypervisor.Machine.{Hypervisor}
use prpl_hypervisor.Machine.Sample.{sample}
use prpl_hypervisor.Scheduler.Sample.{sample-IsReady}
use prpl_hypervisor.Scheduler.Select.{IsReady}
use prpl_hypervisor.Scheduler.Run.{run_scheduler}
use prpl_hypervisor.Scheduler.Run.Switch.{Scheduled}
use prpl_hypervisor.Timer.{timer_interrupt_handler, calc_next_timer_interrupt}
use prpl_hypervisor.Timer.Tick.{Injects, timer_interrupt_handler_lem}

timer_interrupt_handler_lem_example :
    let started = record sample { cpu = calc_next_timer_interrupt 5 100 sample.cpu } in
    (g : Hypervisor) × (past' : ℕ) × (h' : Hypervisor) × (timer_interrupt_handler 100 300 10
        0x80001000 5 400 7 sample
      ≡ some (past', h'))
    × (run_scheduler 10 0x80001000 started ≡ some g)
    × Scheduled 10 started g
    × Injects 300 400 7 g past' h'
    × IsReady h'
timer_interrupt_handler_lem_example =
    timer_interrupt_handler_lem 100 300 10 0x80001000 5 400 7 sample sample-IsReady (inr (inl refl))
