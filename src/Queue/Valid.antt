-- ===== src/Queue/Valid.antt =====
-- The representation invariant of `struct queue_t`, and the operations under it.
use native.Mathlib.Decide.{dec_lt, ℕ_discrete}
use prpl_hypervisor.Base.{
  sym, subst, negative, get_or, set, ◌≢◌, ℕ, ◌+◌, ◌-◌, ◌%◌, ◌^◌, ◌≤◌, ◌<◌, ◌≡◌, List, some, arith,
  length, length-set, le_int, le_int-small, leb,
}
use prpl_hypervisor.Queue.{Queue, create, addtail, remhead, next_slot, head_next, slot}
use prpl_hypervisor.Queue.Window.{window, length-window, mod-cases, mod-shift, mod-back}

-- `small` keeps `head + elem` inside `int32_t`.
pub record IsValid (q : Queue) : Type 0 where
  pub storage : q.size ≤ length q.slots
  pub small : q.size ≤ 2 ^ 30
  pub head_in : q.head < q.size
  pub elem_in : q.elem < q.size
  pub tail_at : q.tail ≡ (q.head + q.elem) % q.size

-- What the queue holds, oldest first.
abbrev pub contents : Queue → List ℕ
contents q = window 0 q.slots q.size q.head q.elem

pub length-contents : (q : Queue) → length (contents q) ≡ q.elem
length-contents q = length-window 0 q.slots q.size q.head q.elem

pub tail_in : {q : Queue} → IsValid q → q.tail < q.size
tail_in v = omega arith

pub next_slot_lem : {q : Queue} → IsValid q → next_slot q ≡ (q.tail + 1) % q.size
unfolding next_slot
next_slot_lem {q} v = ground (arith, tail_in v)

pub head_next_lem : {q : Queue} → IsValid q → head_next q ≡ (q.head + 1) % q.size
unfolding head_next
head_next_lem {q} v = ground arith

pub slot_lem : {q : Queue} (n : ℕ) → IsValid q → n < q.elem → slot q n ≡ (q.head + n) % q.size
unfolding slot
slot_lem {q} n v h = ground arith

-- `head == tail` is the test for the empty queue.
pub head-eq-tail : {q : Queue} → IsValid q → q.head ≡ q.tail → q.elem ≡ 0
head-eq-tail {q} v e = ground (arith, mod-cases (q.head + q.elem) q.size (omega arith))

pub head-ne-tail : {q : Queue} → IsValid q → q.elem ≡ 0 → q.head ≡ q.tail
head-ne-tail {q} v e = ground (arith, mod-cases (q.head + q.elem) q.size (omega arith))

-- The next slot is the head exactly when `size - 1` places are taken.
pub next-eq-head : {q : Queue} → IsValid q → (q.tail + 1) % q.size ≡ q.head → q.elem + 1 ≡ q.size
next-eq-head {q} v e = ground (
  arith,
  mod-cases (q.head + q.elem) q.size (omega arith),
  mod-cases (q.tail + 1) q.size (omega (arith, tail_in v)),
)

pub next-ne-head : {q : Queue} → IsValid q → q.elem + 1 ≡ q.size → (q.tail + 1) % q.size ≡ q.head
next-ne-head {q} v e = ground (
  arith,
  mod-cases (q.head + q.elem) q.size (omega arith),
  mod-cases (q.tail + 1) q.size (omega (arith, tail_in v)),
)

pub elem-test : {q : Queue} (n : ℕ) → IsValid q → n < 2 ^ 31 → le_int q.elem n ≡ leb q.elem n
elem-test {q} n v h = le_int-small q.elem n (omega (arith, v)) h

pub create-IsValid :
    (p a n : ℕ) (storage : List ℕ) {q : Queue}
    → n < 2 ^ 30
    → length storage ≡ n + 1
    → create p a n storage ≡ some q
    → IsValid q × (q.elem ≡ 0) × (q.size ≡ n + 1)
unfolding create
create-IsValid p a n storage h l e = ground arith

pub addtail_room :
    {q : Queue} (x : ℕ)
    → IsValid q
    → q.elem + 1 < q.size
    → addtail q x ≡ (
      record q { slots = set q.slots q.tail x; tail = (q.tail + 1) % q.size; elem = q.elem + 1 },
      0,
    )
unfolding addtail
addtail_room {q} x v h = ground (arith, next_slot_lem v, next-eq-head v)

pub addtail_full :
    {q : Queue} (x : ℕ) → IsValid q → q.elem + 1 ≡ q.size → addtail q x ≡ (q, negative 1)
unfolding addtail
addtail_full {q} x v h = ground (arith, next_slot_lem v, next-ne-head v)

pub remhead_some :
    {q : Queue}
    → IsValid q
    → q.elem ≢ 0
    → remhead q
      ≡ (record q { head = (q.head + 1) % q.size; elem = q.elem - 1 }, get_or q.slots q.head 0)
unfolding remhead
remhead_some {q} v h = ground (arith, head_next_lem v, head-eq-tail v)

pub remhead_empty : {q : Queue} → IsValid q → q.elem ≡ 0 → remhead q ≡ (q, 0)
unfolding remhead
remhead_empty {q} v h = ground (arith, head-ne-tail v)

-- `queue_addtail` and `queue_remhead` keep the invariant.
pub addtail-IsValid : {q : Queue} (x : ℕ) → IsValid q → IsValid (addtail q x).0
addtail-IsValid {q} x v = elim (dec_lt (q.elem + 1) q.size) [
  | yes h ↦
      subst (λ r. IsValid r.0) (sym (addtail_room x v h))
        (ground (arith, length-set q.slots q.tail x, mod-shift q.head q.elem q.size))
  | no h ↦ subst (λ r. IsValid r.0) (sym (addtail_full x v (omega (arith, v)))) v
]

pub remhead-IsValid : {q : Queue} → IsValid q → IsValid (remhead q).0
remhead-IsValid {q} v = elim (ℕ_discrete q.elem 0) [
  | yes h ↦ subst (λ r. IsValid r.0) (sym (remhead_empty v h)) v
  | no h ↦
      subst (λ r. IsValid r.0) (sym (remhead_some v h))
        (ground (arith, mod-back q.head q.elem q.size))
]
