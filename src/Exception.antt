-- ===== src/Exception.antt =====
-- sys/kernel/exception.c: a guest exits to the hypervisor. `run` is what the handler of a hypercall
-- does; `ticks` and `cpu_idle` are those of the scheduler. On the PIC32MZ the emulation of
-- instructions does nothing but log.
pub mod Resume
mod Tests
use prpl_hypervisor.Base.{
  ℕ, ◌+◌, ◌/◌, ◌^◌, Option, none, some, List, bit_and, add32, ◌==◌, if◌then◌else◌,
}
use prpl_hypervisor.Machine.{
  Hypervisor, Vcpu, Cpu, VcpuState, running, blocked, is_running, mfc0, get_epc, set_epc, put_vcpu,
}
use prpl_hypervisor.Hypercall.{hypercall_execution}
use prpl_hypervisor.Scheduler.Run.{run_scheduler}

-- `getCauseCode` and `getGCauseCode` of arch/mips/common/hal.c.
unfoldable pub get_cause_code : Cpu → ℕ
get_cause_code c = bit_and (mfc0 c 13 0) 0x7c / 2 ^ 2

unfoldable pub get_gcause_code : Cpu → ℕ
get_gcause_code c = bit_and (mfc0 c 12 6) 0x7c / 2 ^ 2

-- The guest goes on behind the instruction at `epc`.
unfoldable pub step_over : Hypervisor → ℕ → Hypervisor
step_over h epc =
    let v = h.vcpu h.vcpu_executing in
    record h {
      vcpu = (put_vcpu h h.vcpu_executing (record v { pc = add32 epc 4 })).vcpu;
      cpu = set_epc h.cpu (add32 epc 4);
    }

module _ {ℓ} {H : Type ℓ} (table : List (Option H)) (run : H → Hypervisor → Option Hypervisor) where
  -- The switch of `guest_exit_exception`. GUEST_INSTRUCTION_EMULATION (0) and any other cause change
  -- nothing.
  unfoldable pub serve : Hypervisor → Option Hypervisor
  serve h = if get_gcause_code h.cpu == 2 then hypercall_execution table run h else some h

module _ {ℓ} {H : Type ℓ} (table : List (Option H)) (run : H → Hypervisor → Option Hypervisor)
    (ticks cpu_idle : ℕ) where
  -- `guest_exit_exception`
  unfoldable pub guest_exit_exception : Hypervisor → Option Hypervisor
  unfolding serve step_over
  guest_exit_exception h = elim (serve table run h) [
    | none ↦ none
    | some g ↦
        let g' = step_over g (get_epc h.cpu) in
        if is_running (g'.vcpu g'.vcpu_executing).state
        then some g'
        else run_scheduler ticks cpu_idle g'
  ]

  -- `general_exception_handler`: any cause but a guest exit stops the machine.
  unfoldable pub general_exception_handler : Hypervisor → Option Hypervisor
  unfolding guest_exit_exception
  general_exception_handler h =
      if get_cause_code h.cpu == 0x1b then guest_exit_exception h else none
