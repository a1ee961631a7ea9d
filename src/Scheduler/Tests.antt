-- ===== src/Scheduler/Tests.antt =====
-- Runs of the scheduler on three VCPUs, of which 200 has the least priority left.
use prpl_hypervisor.Base.{
  ℕ, ◌≡◌, refl, inl, inr, [], ◌∷◌, arith, ◌==◌, if◌then◌else◌, none, some, In,
}
use prpl_hypervisor.Machine.{Hypervisor}
use prpl_hypervisor.Machine.Sample.{sample, sample_vm}
use prpl_hypervisor.Scheduler.Sample.{sample-IsReady}
use prpl_hypervisor.Queue.{addtail, remhead, count, next_slot, head_next}
use prpl_hypervisor.Scheduler.{
  search_highest, requeue, lower_all, lower, take_best, round_robin, fast_interrupt_delivery,
}
use prpl_hypervisor.Scheduler.Select.{IsReady, ready}
use prpl_hypervisor.Scheduler.Choose.{IsSelection}
use prpl_hypervisor.Scheduler.Ready.{fast_interrupt_delivery-IsReady}
use prpl_hypervisor.Scheduler.Returns.{Kept, round_robin_selects}
use prpl_hypervisor.Scheduler.Aging.{Ages, round_robin-Ages}
use prpl_hypervisor.Scheduler.Run.{run_scheduler}
use prpl_hypervisor.Scheduler.Run.Switch.{Scheduled, run_scheduler-Scheduled}

ready-sample : ready sample ≡ 100 ∷ 200 ∷ 300 ∷ []
ready-sample = refl

-- 200 is chosen, and the two others come closer by its 20.
round_robin_selects_example :
    (p : ℕ) × (h' : Hypervisor) × (round_robin sample ≡ some (p, h'))
    × IsSelection sample.vcpu (ready sample) p
    × Kept sample h'
round_robin_selects_example = round_robin_selects sample sample-IsReady

abbrev after : Hypervisor
unfolding round_robin
after = elim (round_robin sample) [ none ↦ sample | some r ↦ r.1 ]

round_robin-sample : round_robin sample ≡ some (200, after)
unfolding round_robin search_highest requeue lower_all lower take_best addtail remhead count
    next_slot head_next
round_robin-sample = refl

round_robin-Ages_example : In 200 (ready sample) × Ages sample 200 after
round_robin-Ages_example =
    round_robin-Ages sample 200 after sample-IsReady (ground arith) (ground arith)
      round_robin-sample

fast_interrupt_delivery-IsReady_example : IsReady (fast_interrupt_delivery sample 200)
fast_interrupt_delivery-IsReady_example =
    fast_interrupt_delivery-IsReady sample 200 sample-IsReady (inr (inl refl))

run_scheduler-Scheduled_example :
    (h' : Hypervisor) × (run_scheduler 10 0x80001000 sample ≡ some h') × Scheduled 10 sample h'
run_scheduler-Scheduled_example =
    run_scheduler-Scheduled 10 0x80001000 sample sample-IsReady (inr (inl refl))

-- VM 2 has the fast interrupt 44.
abbrev fast : Hypervisor
fast = record sample {
  vm = λ p.
      if p == 200
      then record (sample_vm 2) {
        vmconf = record (sample_vm 2).vmconf { fast_int_sz = 1; fast_interrupts = 44 ∷ [] };
      }
      else sample_vm 1;
}
