-- ===== src/Queue.antt =====
-- The circular queue of sys/lib/queue.c. A queue of `size` slots holds at most `size - 1`
-- pointers, from `head` on. A function that updates `*q` returns the new queue beside its result.
--
-- The fields are the patterns of `int32_t`. A read outside the array gives NULL and a write there
-- changes nothing; the child module Valid says when the indices are inside.
pub mod Window
pub mod Valid
pub mod Fifo
pub mod Refine
pub mod Remtail
mod Tests
use prpl_hypervisor.Base.{
  ℕ, ◌||◌, List, Option, none, some, get_or, set, add32, sub32, negative, rem_int, le_int, ◌==◌,
  if◌then◌else◌,
}

pub record Queue : Type 0 where
  pub size : ℕ
  pub elem : ℕ
  pub head : ℕ
  pub tail : ℕ
  pub slots : List ℕ

-- `queue_create` takes what the two calls of `malloc` answer: the structure's address, and the
-- address and the uninitialised contents of the array. The address of the structure is the result.
unfoldable pub create : ℕ → ℕ → ℕ → List ℕ → Option Queue
create q_addr data_addr n storage =
    if q_addr == 0
    then none
    else if data_addr == 0
    then none
    else some (record { size = add32 n 1; elem = 0; head = 0; tail = 0; slots = storage })

-- `queue_destroy`: the status. On 0 both blocks are freed.
unfoldable pub destroy : Queue → ℕ
destroy q = if q.head == q.tail then 0 else negative 1

unfoldable pub count : Queue → ℕ
count q = q.elem

unfoldable pub next_slot : Queue → ℕ
next_slot q = rem_int (add32 q.tail 1) q.size

unfoldable pub head_next : Queue → ℕ
head_next q = rem_int (add32 q.head 1) q.size

unfoldable pub addtail : Queue → ℕ → Queue × ℕ
addtail q ptr =
    if q.size == 0
    then (q, negative 1)
    else if next_slot q == q.head
    then (q, negative 1)
    else (record q { slots = set q.slots q.tail ptr; tail = next_slot q; elem = add32 q.elem 1 }, 0)

unfoldable pub remhead : Queue → Queue × ℕ
remhead q =
    if q.size == 0
    then (q, 0)
    else if q.head == q.tail
    then (q, 0)
    else (record q { head = head_next q; elem = sub32 q.elem 1 }, get_or q.slots q.head 0)

unfoldable pub remtail : Queue → Queue × ℕ
remtail q = if q.size == 0 then (q, 0) else if q.head == q.tail then (q, 0) else (
  record q { tail = rem_int (sub32 q.tail 1) q.size; elem = sub32 q.elem 1 },
  get_or q.slots q.tail 0,
)

unfoldable pub slot : Queue → ℕ → ℕ
slot q n = rem_int (add32 q.head n) q.size

unfoldable pub get : Queue → ℕ → ℕ
get q n =
    if q.size == 0 || le_int q.elem n || q.head == q.tail then 0 else get_or q.slots (slot q n) 0

-- `queue_set`
unfoldable pub update : Queue → ℕ → ℕ → Queue × ℕ
update q n ptr =
    if q.size == 0 || le_int q.elem n || q.head == q.tail
    then (q, negative 1)
    else (record q { slots = set q.slots (slot q n) ptr }, 0)

-- `queue_swap`. The second read is made after the first, and before either write.
unfoldable pub swap : Queue → ℕ → ℕ → Queue × ℕ
swap q n m =
    if q.size == 0 || le_int q.elem n || le_int q.elem m || q.head == q.tail
    then (q, negative 1)
    else (
      record q {
        slots =
            set (set q.slots (slot q n) (get_or q.slots (slot q m) 0)) (slot q m)
              (get_or q.slots (slot q n) 0);
      },
      0,
    )
