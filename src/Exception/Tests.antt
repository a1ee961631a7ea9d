-- ===== src/Exception/Tests.antt =====
-- A guest calls the hypercall 5, whose handler counts a tick, at the address 0x80002000.
use prpl_hypervisor.Base.{
  ℕ, ◌+◌, ◌*◌, ◌^◌, ◌≡◌, refl, ◌⊎◌, inl, List, Option, none, some, add32, false, set, replicate,
  ◌==◌, ◌&&◌, if◌then◌else◌,
}
use prpl_hypervisor.Machine.{Hypervisor, is_running, get_epc}
use prpl_hypervisor.Machine.Sample.{sample}
use prpl_hypervisor.Scheduler.Sample.{sample-IsReady}
use prpl_hypervisor.Scheduler.Ready.{IsReady-frame}
use prpl_hypervisor.Hypercall.{hypercall_execution, get_hypercall_code}
use prpl_hypervisor.Scheduler.Choose.{IsRunning, IsSelection}
use prpl_hypervisor.Scheduler.Select.{IsReady, ready}
use prpl_hypervisor.Exception.{
  step_over, serve, general_exception_handler, get_cause_code, get_gcause_code,
}
use prpl_hypervisor.Exception.Resume.{ResumesAt, general_exception_handler_lem}

abbrev counting : Hypervisor → Hypervisor
counting h = record h { tick_count = h.tick_count + 1 }

abbrev calls : List (Option ℕ)
calls = set (replicate 30 none) 5 (some 1)

abbrev perform_call : ℕ → Hypervisor → Option Hypervisor
perform_call n h = some (counting h)

abbrev exiting : Hypervisor
exiting = record sample {
  cpu = record sample.cpu {
    cp0 = λ reg sel.
        if reg == 13 && sel == 0
        then 108
        else if reg == 12 && sel == 6
        then 8
        else if reg == 8 && sel == 1
        then 5 * 2 ^ 11
        else if reg == 14 && sel == 0
        then 0x80002000
        else 0;
  };
}

cause-exiting : get_cause_code exiting.cpu ≡ 0x1b
unfolding get_cause_code
cause-exiting = refl

serve-exiting : serve calls perform_call exiting ≡ some (counting exiting)
unfolding serve get_gcause_code hypercall_execution get_hypercall_code
serve-exiting = refl

counting-IsReady : IsReady (counting exiting)
counting-IsReady = IsReady-frame 100 1 exiting.cpu sample-IsReady

general_exception_handler_lem_example :
    let g = counting exiting in
    let g' = step_over g (get_epc exiting.cpu) in
    (h' : Hypervisor) × (general_exception_handler calls perform_call 10 0x80001000 exiting
      ≡ some h')
    × IsReady h'
    × ((IsRunning (g.vcpu g.vcpu_executing)
          × (h'.vcpu_executing ≡ g.vcpu_executing)
          × ResumesAt (add32 (get_epc exiting.cpu) 4) h')
        ⊎ ((is_running (g.vcpu g.vcpu_executing).state ≡ false)
            × IsSelection g'.vcpu (ready g') h'.vcpu_executing
            × (h'.tick_count ≡ add32 g.tick_count 1)))
general_exception_handler_lem_example =
    general_exception_handler_lem calls perform_call 10 0x80001000 exiting (counting exiting)
      cause-exiting serve-exiting counting-IsReady (inl refl)
