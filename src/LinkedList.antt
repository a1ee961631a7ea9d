-- ===== src/LinkedList.antt =====
-- sys/lib/linkedlist.c: lists of nodes that are allocated one by one. A node is found by its address; what
-- malloc answers is an argument, and free does not change nodes that are still linked. A loop whose fuel
-- is used up has no result.
pub mod Chain
mod Tests
use prpl_hypervisor.Base.{
  ℕ, zero, suc, List, [], ◌∷◌, Option, none, some, add32, negative, ◌==◌, if◌then◌else◌,
}
use prpl_hypervisor.Machine.{store}

-- `struct list_t`
pub record Node : Type 0 where
  pub elem : ℕ
  pub next : ℕ

-- The loop of `list_append`: the last node.
unfoldable pub last_node : ℕ → (ℕ → Node) → ℕ → Option ℕ
last_node zero nodes t2 = none
last_node (suc fuel) nodes t2 =
    let rest = last_node fuel nodes (nodes t2).next in
    if (nodes t2).next == 0 then some t2 else rest

-- `list_append`: the nodes, the list, and the result.
unfoldable pub list_append : ℕ → (ℕ → Node) → ℕ → ℕ → ℕ → Option ((ℕ → Node) × ℕ × ℕ)
unfolding last_node
list_append fuel nodes lst item t1 =
    let fresh = store nodes t1 (record { elem = item; next = 0 }) in
    if t1 == 0
    then some (nodes, lst, negative 1)
    else if lst == 0
    then some (fresh, t1, 0)
    else elim (last_node fuel fresh lst) [
      | none ↦ none
      | some t2 ↦ some (store fresh t2 (record (fresh t2) { next = t1 }), lst, 0)
    ]

-- The loop of `list_remove_all`: what it frees, in this order.
unfoldable pub list_remove_all : ℕ → (ℕ → Node) → ℕ → Option (List ℕ)
list_remove_all zero nodes lst = none
list_remove_all (suc fuel) nodes lst =
    let rest = list_remove_all fuel nodes (nodes lst).next in
    if lst == 0
    then some []
    else elim rest [ none ↦ none | some freed ↦ some ((nodes lst).elem ∷ lst ∷ freed) ]

-- `list_count`; a read through NULL has no result.
unfoldable pub list_count : ℕ → (ℕ → Node) → ℕ → Option ℕ
list_count zero nodes t1 = none
list_count (suc fuel) nodes t1 =
    let rest = list_count fuel nodes (nodes t1).next in
    if t1 == 0
    then none
    else if (nodes t1).next == 0
    then some 0
    else elim rest [ none ↦ none | some i ↦ some (add32 i 1) ]
