-- ===== src/Queue/Tests.antt =====
-- Runs of the queue at concrete inputs.
use prpl_hypervisor.Base.{◌≡◌, refl, List, [], ◌∷◌, arith, negative}
use prpl_hypervisor.Queue.{
  Queue, create, addtail, remhead, remtail, get, swap, next_slot, head_next, slot,
}
use prpl_hypervisor.Queue.Fifo
use prpl_hypervisor.Queue.Fifo.{Op, put, take_head, read, write, exchange}
use prpl_hypervisor.Queue.Valid.{IsValid, contents}
use prpl_hypervisor.Queue.Refine.{run, run_refines}

-- Two pointers, 70 and 80, round the end of three slots.
abbrev wrapped : Queue
wrapped = record { size = 3; elem = 2; head = 2; tail = 1; slots = 80 ∷ 90 ∷ 70 ∷ [] }

-- One pointer, and `tail` at the last slot.
abbrev single : Queue
single = record { size = 3; elem = 1; head = 1; tail = 2; slots = 10 ∷ 20 ∷ 30 ∷ [] }

-- One pointer in the last slot.
abbrev at_end : Queue
at_end = record { size = 3; elem = 1; head = 2; tail = 0; slots = 10 ∷ 20 ∷ 30 ∷ [] }

abbrev fresh : Queue
fresh = record wrapped { elem = 0; head = 0; tail = 0 }

abbrev script : List Op
script = put 50 ∷ take_head ∷ put 50 ∷ read 1 ∷ exchange 0 1 ∷ take_head ∷ write 4 9 ∷ []

wrapped-IsValid : IsValid wrapped
wrapped-IsValid = omega arith

single-IsValid : IsValid single
single-IsValid = omega arith

at_end-IsValid : IsValid at_end
at_end-IsValid = omega arith

contents-wrapped : contents wrapped ≡ 70 ∷ 80 ∷ []
contents-wrapped = refl

run-wrapped : run wrapped script ≡ negative 1 ∷ 70 ∷ 0 ∷ 50 ∷ 0 ∷ 50 ∷ negative 1 ∷ []
unfolding run addtail remhead get swap next_slot head_next slot prpl_hypervisor.Queue.update
run-wrapped = refl

run_refines_example : run wrapped script ≡ Fifo.run 2 (70 ∷ 80 ∷ []) script
run_refines_example = run_refines script wrapped-IsValid (omega arith)
