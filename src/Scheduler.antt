-- ===== src/Scheduler.antt =====
-- sys/kernel/scheduler.c: the priority round-robin choice of the next VCPU, fast interrupt
-- delivery, and the searches of the ready list.
pub mod Rotate
pub mod Choose
pub mod Loops
pub mod Lowered
pub mod Pending
pub mod Select
pub mod Ready
pub mod Returns
pub mod Aging
pub mod Lookup
pub mod FastInt
pub mod Run
pub mod Sample
mod Tests
use prpl_hypervisor.Base.{
  ℕ, zero, suc, Option, none, some, List, [], ◌∷◌, add32, sub32, ltb, ◌==◌, ◌&&◌, not, Bool, true,
  false, if◌then◌else◌,
}
use prpl_hypervisor.Queue
use prpl_hypervisor.Machine.{Hypervisor, Vcpu, Vm, store, put_vcpu, is_running}

-- One turn of a loop of `round_robin_scheduler`: the head of the ready list goes to its tail. No
-- result is `goto error1` or `goto error2`, whose CRITICAL waits for a reset.
unfoldable pub requeue : Hypervisor → Option (ℕ × Hypervisor)
requeue h =
    let (q, v) = Queue.remhead h.vcpu_ready_list in
    let (q', status) = Queue.addtail q v in
    if v == 0
    then none
    else if status == 0
    then some (v, record h { vcpu_ready_list = q' })
    else none

-- How the search for the highest priority ends: by a reset, at a critical VCPU (`return vcpu`), or
-- with `vcpu_aux`.
pub data Search : Type 0 where
  halted : Search
  urgent : ℕ → Hypervisor → Search
  found : ℕ → Hypervisor → Search

abbrev pub is_urgent : Vcpu → Bool
is_urgent v = not (v.critical == 0) && is_running v.state

abbrev pub is_better : ℕ → Vcpu → Bool
is_better highestp v = ltb v.priority_rem highestp && is_running v.state

-- The first loop, with `left` rounds to go.
unfoldable pub search_highest : ℕ → ℕ → ℕ → Hypervisor → Search
search_highest zero highestp aux h = found aux h
search_highest (suc left) highestp aux h = elim (requeue h) [
  | none ↦ halted
  | some (p, h') ↦
      let v = h'.vcpu p in
      let rest =
        search_highest left (if is_better highestp v then v.priority_rem else highestp)
          (if is_better highestp v then p else aux) h' in
      if is_urgent v then urgent p h' else rest
]

-- `vcpu->priority_rem -= vcpu_aux->priority_rem`, for the VCPU at `p`.
unfoldable pub lower : (ℕ → Vcpu) → ℕ → ℕ → ℕ → Vcpu
lower vcpu aux p =
    let v = vcpu p in
    if not (p == aux) && is_running v.state
    then store vcpu p (record v { priority_rem = sub32 v.priority_rem (vcpu aux).priority_rem })
    else vcpu

-- The second loop.
unfoldable pub lower_all : ℕ → ℕ → Hypervisor → Option Hypervisor
lower_all zero aux h = some h
lower_all (suc left) aux h = elim (requeue h) [
  | none ↦ none
  | some (p, h') ↦ lower_all left aux (record h' { vcpu = lower h'.vcpu aux p })
]

unfoldable pub take_urgent : ℕ → Hypervisor → Hypervisor
take_urgent p h =
    let v = h.vcpu p in
    record h {
      vcpu = (put_vcpu h p (record v { critical = 0; bgjobs = add32 v.bgjobs 1 })).vcpu;
      pending = sub32 h.pending 1;
    }

unfoldable pub take_best : ℕ → Hypervisor → Hypervisor
take_best p h =
    let v = h.vcpu p in
    put_vcpu h p (record v { priority_rem = v.priority; bgjobs = add32 v.bgjobs 1 })

-- `round_robin_scheduler`: the VCPU chosen, or NULL.
unfoldable pub round_robin : Hypervisor → Option (ℕ × Hypervisor)
round_robin h =
    let k = Queue.count h.vcpu_ready_list in
    elim (search_highest k 255 0 h) [
      | halted ↦ none
      | urgent p h' ↦ some (p, take_urgent p h')
      | found aux h' ↦
          if aux == 0
          then some (0, h')
          else elim (lower_all k aux h') [ none ↦ none | some h'' ↦ some (aux, take_best aux h'') ]
    ]

-- `fast_interrupt_delivery`
unfoldable pub fast_interrupt_delivery : Hypervisor → ℕ → Hypervisor
fast_interrupt_delivery h target =
    let v = h.vcpu target in
    if h.vcpu_executing == target
    then h
    else if v.critical == 0
    then record h {
      vcpu = (put_vcpu h target (record v { critical = 1 })).vcpu;
      pending = add32 h.pending 1;
    }
    else h

-- `get_vcpu_from_id`, with `left` positions of the list to go, from position `i` on.
unfoldable pub search_id : Hypervisor → ℕ → ℕ → ℕ → ℕ
search_id h id i zero = 0
search_id h id i (suc left) =
    let p = Queue.get h.vcpu_ready_list i in
    let rest = search_id h id (add32 i 1) left in if (h.vcpu p).id == id then p else rest

unfoldable pub get_vcpu_from_id : Hypervisor → ℕ → ℕ
unfolding search_id
get_vcpu_from_id h id = search_id h id 0 (Queue.count h.vcpu_ready_list)

-- The inner loop of `get_fast_int_vcpu_node`, over the interrupts of a VM.
unfoldable pub has_fast_int : List ℕ → ℕ → ℕ → Bool
has_fast_int ints zero fast_int = false
has_fast_int [] (suc sz) fast_int = false
has_fast_int (i ∷ is) (suc sz) fast_int =
    if fast_int == i then true else has_fast_int is sz fast_int

unfoldable pub search_fast_int : Hypervisor → ℕ → ℕ → ℕ → ℕ
search_fast_int h fast_int j zero = 0
search_fast_int h fast_int j (suc left) =
    let p = Queue.get h.vcpu_ready_list j in
    let vm = h.vm (h.vcpu p).vm in
    let rest = search_fast_int h fast_int (add32 j 1) left in
    if p == 0
    then rest
    else if has_fast_int vm.vmconf.fast_interrupts vm.vmconf.fast_int_sz fast_int
    then p
    else rest

unfoldable pub get_fast_int_vcpu_node : Hypervisor → ℕ → ℕ
unfolding search_fast_int has_fast_int
get_fast_int_vcpu_node h fast_int = search_fast_int h fast_int 0 (Queue.count h.vcpu_ready_list)
