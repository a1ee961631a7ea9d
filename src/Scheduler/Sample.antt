-- ===== src/Scheduler/Sample.antt =====
-- The sample machine is well-formed.
use prpl_hypervisor.Base.{refl, arith}
use prpl_hypervisor.Machine.Sample.{sample}
use prpl_hypervisor.Scheduler.Select.{IsReady}

pub sample-IsReady : IsReady sample
sample-IsReady = record {
  valid = omega arith;
  non_null = omega arith;
  distinct = ground arith;
  words = omega arith;
  counted = refl;
}
