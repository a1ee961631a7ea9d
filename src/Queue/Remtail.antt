-- ===== src/Queue/Remtail.antt =====
-- `queue_remtail`, and the slot that it reads.
use native.Mathlib.Nat.{mod-eq_of_lt}
use prpl_hypervisor.Base.{
  ap, ◌∙◌, ℕ, ◌+◌, ◌%◌, ◌^◌, ◌≤◌, ◌<◌, ◌≡◌, arith, get_or, get_or-set_ne, ◌≢◌, rem_int, negative,
  sub32,
}
use prpl_hypervisor.Queue.{Queue, addtail, remtail}
use prpl_hypervisor.Queue.Window.{mod-cases}
use prpl_hypervisor.Queue.Valid.{IsValid, tail_in, addtail_room, head-eq-tail, next-eq-head}

-- A removal from the tail right after `x` was added gives what the slot after it held, whatever
-- `x` is.
pub remtail-addtail :
    {q : Queue} (x : ℕ)
    → IsValid q
    → q.elem + 1 < q.size
    → (remtail (addtail q x).0).1 ≡ get_or q.slots ((q.tail + 1) % q.size) 0
unfolding remtail
remtail-addtail {q} x v h = rw (addtail_room x v h) (
    ground (
      arith,
      next-eq-head v,
      get_or-set_ne q.slots {i = q.tail} {j = (q.tail + 1) % q.size} x 0,
      mod-cases (q.tail + 1) q.size (omega (arith, tail_in v)),
    ))

rem_int-minus_one : (s : ℕ) → 1 < s → s ≤ 2 ^ 30 → rem_int (sub32 0 1) s ≡ negative 1
rem_int-minus_one s h k = ground (arith, mod-eq_of_lt h)

tail-remtail :
    {q : Queue}
    → IsValid q
    → q.elem ≢ 0
    → q.tail ≡ 0
    → (remtail q).0.tail ≡ rem_int (sub32 0 1) q.size
unfolding remtail
tail-remtail {q} v e t = ground (arith, head-eq-tail v, ap (λ k. rem_int (sub32 k 1) q.size) t)

size-remtail : (q : Queue) → (remtail q).0.size ≡ q.size
unfolding remtail
size-remtail q = ground arith

-- A removal from the tail of a non-empty queue whose `tail` is 0 stores -1 in `tail`, and the queue is
-- no longer valid.
pub remtail_wrap :
    {q : Queue}
    → IsValid q
    → q.elem ≢ 0
    → q.tail ≡ 0
    → ((remtail q).0.tail ≡ negative 1) × ¬ IsValid (remtail q).0
remtail_wrap {q} v e t = (stored, λ w. omega (arith, tail_in w, size-remtail q, stored, v.small))
  where
    stored : (remtail q).0.tail ≡ negative 1
    stored = tail-remtail v e t ∙ rem_int-minus_one q.size (omega (arith, v)) v.small
