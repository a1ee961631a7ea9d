-- ===== src/Queue/Refine.antt =====
-- The functions of the queue beside the operations on the bounded sequence of what it holds.
use native.Mathlib.Decide.{dec_lt, ℕ_discrete}
use prpl_hypervisor.Base.{
  ℕ, zero, suc, ◌+◌, ◌-◌, ◌%◌, ◌^◌, ◌≤◌, ◌<◌, ◌≡◌, refl, ap, ◌∙◌, List, [], ◌∷◌, ◌++◌, arith,
  length, length-set, get_or, set, leb, ◌==◌, ◌||◌, le_int,
}
use prpl_hypervisor.Queue.{Queue, addtail, remhead, get, update, swap, slot}
use prpl_hypervisor.Queue.Fifo
use prpl_hypervisor.Queue.Fifo.{
  Op, put, take_head, read, write, exchange, IsIndexed, AllIndexed, push, pop, replace, interchange,
}
use prpl_hypervisor.Queue.Window.{window, window_of_pos, window-set_end, window-set, get_or-window}
use prpl_hypervisor.Queue.Valid.{
  IsValid, contents, length-contents, addtail_room, addtail_full, remhead_some, remhead_empty,
  addtail-IsValid, remhead-IsValid, slot_lem, elem-test, head-eq-tail,
}

get_or_beyond : (xs : List ℕ) (n : ℕ) → length xs ≤ n → get_or xs n 0 ≡ 0
get_or_beyond [] n h = refl
get_or_beyond (x ∷ xs) zero h = absurd (omega arith)
get_or_beyond (x ∷ xs) (suc n) h = get_or_beyond xs n (omega arith)

pub contents-addtail :
    {q : Queue} (x : ℕ)
    → IsValid q
    → q.elem + 1 < q.size
    → contents (addtail q x).0 ≡ contents q ++ x ∷ []
contents-addtail {q} x v h =
    ap (λ r. contents r.0) (addtail_room x v h)
    ∙ ap (window 0 (set q.slots q.tail x) q.size q.head) e
    ∙ window-set_end 0 q.slots q.size x q.elem q.head q.tail v.storage v.head_in v.elem_in v.tail_at
  where
    e : q.elem + 1 ≡ suc q.elem
    e = omega arith

-- The guard of `queue_get`, `queue_set` and `queue_swap`.
refused :
    {q : Queue} (n : ℕ)
    → IsValid q
    → n < 2 ^ 31
    → (q.size == 0 || le_int q.elem n || q.head == q.tail) ≡ leb q.elem n
refused {q} n v h = ground (arith, elem-test n v h, head-eq-tail v)

set_slot :
    {q : Queue} (x n : ℕ)
    → IsValid q
    → n < q.elem
    → window 0 (set q.slots ((q.head + n) % q.size) x) q.size q.head q.elem ≡ set (contents q) n x
set_slot {q} x n v h =
    window-set 0 q.slots q.size x q.elem q.head n v.storage v.head_in (omega (arith, v)) h

set_slots :
    {q : Queue} (x y n m : ℕ)
    → IsValid q
    → n < q.elem
    → m < q.elem
    → window 0
        (set (set q.slots ((q.head + n) % q.size) x) ((q.head + m) % q.size) y)
        q.size
        q.head
        q.elem
      ≡ set (set (contents q) n x) m y
set_slots {q} x y n m v h k =
    window-set 0 (set q.slots i x) q.size y q.elem q.head m
      (omega (arith, v, length-set q.slots i x)) v.head_in (omega (arith, v)) k
    ∙ ap (λ xs. set xs m y) (set_slot x n v h)
  where
    i : ℕ
    i = (q.head + n) % q.size

swap_guard :
    {q : Queue} (n m : ℕ)
    → IsValid q
    → n < 2 ^ 31
    → m < 2 ^ 31
    → (q.size == 0 || le_int q.elem n || le_int q.elem m || q.head == q.tail)
      ≡ (leb q.elem n || leb q.elem m)
swap_guard {q} n m v h k = ground (arith, elem-test n v h, elem-test m v k, head-eq-tail v)

-- Adding at the tail appends, or refuses when `size - 1` pointers are held.
pub addtail_refines :
    {q : Queue} (x : ℕ)
    → IsValid q
    → (contents (addtail q x).0, (addtail q x).1) ≡ push (q.size - 1) (contents q) x
unfolding push
addtail_refines {q} x v = elim (dec_lt (q.elem + 1) q.size) [
  | yes h ↦ ground (arith, contents-addtail x v h, addtail_room x v h, length-contents q)
  | no h ↦ ground (arith, addtail_full x v (omega (arith, v)), length-contents q)
]

pub remhead_refines :
    {q : Queue} → IsValid q → (contents (remhead q).0, (remhead q).1) ≡ pop (contents q)
unfolding pop
remhead_refines {q} v = elim (ℕ_discrete q.elem 0) [
  | yes h ↦ ground (arith, remhead_empty v h)
  | no h ↦ ground (arith, remhead_some v h, window_of_pos 0 q.slots q.size q.head q.elem h)
]

-- `queue_get` reads the n-th oldest pointer, and answers NULL past the end.
pub get_refines : {q : Queue} (n : ℕ) → IsValid q → n < 2 ^ 31 → get q n ≡ get_or (contents q) n 0
unfolding get
get_refines {q} n v h = elim (dec_lt n q.elem) [
  | yes k ↦ ground (
    arith,
    refused n v h,
    slot_lem n v k,
    get_or-window 0 q.slots q.size q.head q.elem n v.head_in k,
  )
  | no k ↦
      ground (arith, refused n v h, get_or_beyond (contents q) n (omega (arith, length-contents q)))
]

pub update_refines :
    {q : Queue} (n x : ℕ)
    → IsValid q
    → n < 2 ^ 31
    → (contents (update q n x).0, (update q n x).1) ≡ replace (contents q) n x
unfolding update replace
update_refines {q} n x v h = elim (dec_lt n q.elem) [
  | yes k ↦ ground (arith, refused n v h, slot_lem n v k, length-contents q, set_slot x n v k)
  | no k ↦ ground (arith, refused n v h, length-contents q)
]

pub swap_refines :
    {q : Queue} (n m : ℕ)
    → IsValid q
    → n < 2 ^ 31
    → m < 2 ^ 31
    → (contents (swap q n m).0, (swap q n m).1) ≡ interchange (contents q) n m
unfolding swap interchange
swap_refines {q} n m v h k = elim (dec_lt n q.elem) [
  | yes i ↦ elim (dec_lt m q.elem) [
    | yes j ↦ ground (
      arith,
      swap_guard n m v h k,
      slot_lem n v i,
      slot_lem m v j,
      length-contents q,
      get_or-window 0 q.slots q.size q.head q.elem n v.head_in i,
      get_or-window 0 q.slots q.size q.head q.elem m v.head_in j,
      set_slots (get_or (contents q) m 0) (get_or (contents q) n 0) n m v i j,
    )
    | no j ↦ ground (arith, swap_guard n m v h k, length-contents q)
  ]
  | no i ↦ ground (arith, swap_guard n m v h k, length-contents q)
]

-- The code's calls in the order of a script, and the sequence's.
unfoldable pub step : Queue → Op → Queue × ℕ
step q (put x) = addtail q x
step q take_head = remhead q
step q (read n) = (q, get q n)
step q (write n x) = update q n x
step q (exchange n m) = swap q n m

unfoldable pub run : Queue → List Op → List ℕ
unfolding step
run q [] = []
run q (op ∷ ops) = let (q', r) = step q op in r ∷ run q' ops

pub step-IsValid : {q : Queue} (op : Op) → IsValid q → IsValid (step q op).0
unfolding step update swap
step-IsValid {q} (put x) v = addtail-IsValid x v
step-IsValid {q} take_head v = remhead-IsValid v
step-IsValid {q} (read n) v = v
step-IsValid {q} (write n x) v = ground (arith, length-set q.slots (slot q n) x)
step-IsValid {q} (exchange n m) v = ground (
  arith,
  length-set q.slots (slot q n) (get_or q.slots (slot q m) 0),
  length-set (set q.slots (slot q n) (get_or q.slots (slot q m) 0)) (slot q m)
      (get_or q.slots (slot q n) 0),
)

step_refines :
    {q : Queue} (op : Op)
    → IsValid q
    → IsIndexed op
    → (contents (step q op).0, (step q op).1) ≡ Fifo.step (q.size - 1) (contents q) op
unfolding step Fifo.step
step_refines (put x) v h = addtail_refines x v
step_refines take_head v h = remhead_refines v
step_refines {q} (read n) v h = ap (λ r. (contents q, r)) (get_refines n v h)
step_refines (write n x) v h = update_refines n x v h
step_refines (exchange n m) v h = swap_refines n m v h.0 h.1

size-step : (q : Queue) (op : Op) → (step q op).0.size ≡ q.size
unfolding step addtail remhead update swap
size-step q (put x) = ground arith
size-step q take_head = ground arith
size-step q (read n) = refl
size-step q (write n x) = ground arith
size-step q (exchange n m) = ground arith

-- From a valid queue, every sequence of calls of `queue_addtail`, `queue_remhead`, `queue_get`,
-- `queue_set` and `queue_swap` with non-negative positions returns what the bounded sequence of
-- the queue's contents returns, with `size - 1` for its bound.
pub run_refines :
    (ops : List Op) {q : Queue}
    → IsValid q
    → AllIndexed ops
    → run q ops ≡ Fifo.run (q.size - 1) (contents q) ops
unfolding run Fifo.run
run_refines [] v h = refl
run_refines (op ∷ ops) {q} v h =
    rw (run_refines ops (step-IsValid op v) h.1, ← step_refines op v h.0, size-step q op)
