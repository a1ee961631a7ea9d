-- ===== src/Timer.antt =====
-- arch/mips/pic32mz/timer.c: the timer interrupt. What the counter shows is an argument: `count` at the
-- first read and `now` at the second one. `interval` and `guest_interval` are SYSTEM_TICK_INTERVAL and
-- QUEST_TICK_INTERVAL, from the generated configuration.
pub mod Tick
mod Tests
use prpl_hypervisor.Base.{
  ℕ, ◌+◌, ◌-◌, ◌^◌, Option, none, some, add32, sub32, bit_or, leb, if◌then◌else◌,
}
use prpl_hypervisor.Machine.{Hypervisor, Cpu, mtc0, store, get_guest_ctl2, set_guest_ctl2}
use prpl_hypervisor.Context.{timer_bit}
use prpl_hypervisor.Scheduler.Run.{run_scheduler}

-- `calc_next_timer_interrupt`; IFSCLR(0) is the word at 0xbf810044.
unfoldable pub calc_next_timer_interrupt : ℕ → ℕ → Cpu → Cpu
calc_next_timer_interrupt count interval c =
    let c1 = mtc0 c 11 0 (add32 count interval) in
    record c1 { device = store c1.device 0xbf810044 1 }

-- `diff_time`
unfoldable pub diff_time : ℕ → ℕ → ℕ
diff_time now past = if leb past now then sub32 now past else sub32 0xffffffff (sub32 past now)

-- `timer_interrupt_handler`: `past` and the hypervisor after it.
unfoldable pub timer_interrupt_handler :
    ℕ → ℕ → ℕ → ℕ → ℕ → ℕ → ℕ → Hypervisor → Option (ℕ × Hypervisor)
unfolding calc_next_timer_interrupt diff_time get_guest_ctl2 set_guest_ctl2
timer_interrupt_handler interval guest_interval ticks cpu_idle count now past h =
    elim (run_scheduler ticks cpu_idle
      (record h { cpu = calc_next_timer_interrupt count interval h.cpu })) [
        | none ↦ none
        | some g ↦ some (
            if leb guest_interval (diff_time now past)
            then (
              now,
              record g { cpu = set_guest_ctl2 g.cpu (bit_or (get_guest_ctl2 g.cpu) timer_bit) },
            )
            else (past, g))
      ]
