-- ===== src/Scheduler/Run.antt =====
-- `run_scheduler`, which each timer interrupt calls: the choice of a VCPU and the context switch.
-- The tick count that separates choices comes from the generated config.h, as does the address of
-- `cpu_idle`; both are arguments.
pub mod Switch
use prpl_hypervisor.Base.{
  ==_iff, List, ℕ, ◌+◌, ◌%◌, ◌<◌, ◌≡◌, refl, sym, ap, ◌∙◌, subst, ◌≢◌, ◌⊎◌, inl, inr, Option, none,
  some, arith, Bool, true, false, Bool-cases, ◌==◌, ◌||◌, ◌&&◌, not, if◌then◌else◌, add32, In,
}
use prpl_hypervisor.Machine.{Hypervisor, Vcpu, is_running, store}
use prpl_hypervisor.Context.{context_save, context_restore}
use prpl_hypervisor.Scheduler.{round_robin}
use prpl_hypervisor.Scheduler.Choose.{IsSelection}
use prpl_hypervisor.Scheduler.Select.{IsReady, ready}
use prpl_hypervisor.Scheduler.Ready.{with_vcpu, IsWord-of, IsReady-frame}
use prpl_hypervisor.Queue.Valid.{contents}

-- The three conditions for a choice.
unfoldable pub is_due : ℕ → Hypervisor → Bool
is_due ticks h =
    h.tick_count % ticks == 0
    || not (h.pending == 0)
    || (not (h.vcpu_executing == 0) && not (is_running (h.vcpu h.vcpu_executing).state))

-- The context switch, unless the VCPU stays the same.
unfoldable pub switch_to : ℕ → ℕ → Hypervisor → Hypervisor
switch_to cpu_idle aux h =
    if aux == h.vcpu_executing
    then h
    else let saved = context_save h in
      context_restore cpu_idle (record saved { vcpu_executing = aux })

-- TICKS_BEFORE_SCHEDULING is QUANTUM_SCHEDULER_MS / (SYSTEM_TICK_US / 1000), and SYSTEM_TICK_US is 1000.
unfoldable pub run_scheduler : ℕ → ℕ → Hypervisor → Option Hypervisor
run_scheduler quantum_scheduler_ms cpu_idle h =
    let count = λ (g : Hypervisor). record g { tick_count = add32 g.tick_count 1 } in
    if is_due quantum_scheduler_ms h
    then elim (round_robin h) [
      | none ↦ none
      | some (aux, h') ↦ some (count (switch_to cpu_idle aux h'))
    ]
    else some (count h)
