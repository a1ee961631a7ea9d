-- ===== src/Queue/Fifo.antt =====
-- A bounded sequence of pointers, oldest first: what sys/lib/queue.c promises to its callers.
-- A result is the value that the C function returns.
use prpl_hypervisor.Base.{
  ℕ, ◌<◌, ◌^◌, List, [], ◌∷◌, ◌++◌, ◌||◌, length, get_or, set, ltb, leb, negative, if◌then◌else◌,
}

pub data Op : Type 0 where
  put : ℕ → Op
  take_head : Op
  read : ℕ → Op
  write : ℕ → ℕ → Op
  exchange : ℕ → ℕ → Op

-- Positions are passed as non-negative `int32_t`.
abbrev pub IsIndexed : Op → Type 0
IsIndexed (put x) = Unit
IsIndexed take_head = Unit
IsIndexed (read n) = n < 2 ^ 31
IsIndexed (write n x) = n < 2 ^ 31
IsIndexed (exchange n m) = (n < 2 ^ 31) × (m < 2 ^ 31)

abbrev pub AllIndexed : List Op → Type 0
AllIndexed [] = Unit
AllIndexed (op ∷ ops) = IsIndexed op × AllIndexed ops

unfoldable pub pop : List ℕ → List ℕ × ℕ
pop [] = ([], 0)
pop (x ∷ xs) = (xs, x)

unfoldable pub push : ℕ → List ℕ → ℕ → List ℕ × ℕ
push cap xs x = if ltb (length xs) cap then (xs ++ x ∷ [], 0) else (xs, negative 1)

unfoldable pub replace : List ℕ → ℕ → ℕ → List ℕ × ℕ
replace xs n x = if ltb n (length xs) then (set xs n x, 0) else (xs, negative 1)

unfoldable pub interchange : List ℕ → ℕ → ℕ → List ℕ × ℕ
interchange xs n m =
    if leb (length xs) n || leb (length xs) m
    then (xs, negative 1)
    else (set (set xs n (get_or xs m 0)) m (get_or xs n 0), 0)

unfoldable pub step : ℕ → List ℕ → Op → List ℕ × ℕ
unfolding push pop replace interchange
step cap xs (put x) = push cap xs x
step cap xs take_head = pop xs
step cap xs (read n) = (xs, get_or xs n 0)
step cap xs (write n x) = replace xs n x
step cap xs (exchange n m) = interchange xs n m

-- The results of a sequence of calls.
unfoldable pub run : ℕ → List ℕ → List Op → List ℕ
unfolding step
run cap xs [] = []
run cap xs (op ∷ ops) = let (xs', r) = step cap xs op in r ∷ run cap xs' ops
