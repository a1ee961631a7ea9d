-- ===== src/Hypercall/Tests.antt =====
-- Registrations and calls with numbers for handlers: handler `n` sets the tick count to `n`.
use prpl_hypervisor.Base.{
  ℕ, ◌≡◌, refl, arith, List, Option, none, some, set, replicate, ◌*◌, ◌^◌, ◌==◌, if◌then◌else◌,
}
use prpl_hypervisor.Machine.{Hypervisor}
use prpl_hypervisor.Machine.Sample.{sample}
use prpl_hypervisor.Hypercall.{register_hypercall, hypercall_execution, get_hypercall_code}
use prpl_hypervisor.Hypercall.Laws.{
  Registered, register_hypercall_lem, hypercall_execution-register_hypercall,
}

abbrev handlers : List (Option ℕ)
handlers = set (replicate 30 none) 3 (some 77)

abbrev perform : ℕ → Hypervisor → Option Hypervisor
perform n h = some (record h { tick_count = n })

-- The guest executes `hypercall` with code 5.
abbrev calling : Hypervisor
calling = record sample {
  cpu = record sample.cpu { cp0 = λ reg sel. if reg == 8 then 5 * 2 ^ 11 else 0 };
}

code_calling : get_hypercall_code calling.cpu ≡ 5
unfolding get_hypercall_code
code_calling = refl

register_hypercall_lem_example : Registered handlers 88 5 3 (register_hypercall handlers 88 5)
register_hypercall_lem_example = register_hypercall_lem handlers 88 5 3 refl (λ e. omega arith)

hypercall_execution-register_hypercall_example :
    hypercall_execution (register_hypercall handlers 88 5).0 perform calling ≡ perform 88 calling
hypercall_execution-register_hypercall_example =
    hypercall_execution-register_hypercall handlers 88 5 perform calling refl (omega arith) refl
      code_calling
