-- ===== src/LinkedList/Chain.antt =====
-- Lists as the sequence of their nodes.
use prpl_hypervisor.Base.{
  ℕ, zero, suc, ◌<◌, ◌^◌, ◌≡◌, ◌≢◌, refl, sym, ap, ◌∙◌, subst, ◌⊎◌, inl, inr, arith, List, [], ◌∷◌,
  ◌++◌, some, ==-ne, In, Distinct, length, negative,
}
use native.Mathlib.Decide.{ℕ_discrete}
use prpl_hypervisor.Machine.{store}
use prpl_hypervisor.LinkedList.{Node, last_node, list_append, list_remove_all, list_count}

-- The nodes from `p` on are those at the addresses, and the last one ends the list.
abbrev pub Chain : (ℕ → Node) → ℕ → List ℕ → Type 0
Chain nodes p [] = p ≡ 0
Chain nodes p (a ∷ ns) = (p ≡ a) × (a ≢ 0) × Chain nodes (nodes a).next ns

-- The last of the nodes.
abbrev pub last_of : ℕ → List ℕ → ℕ
last_of a [] = a
last_of a (b ∷ bs) = last_of b bs

last_node_lem :
    (ns : List ℕ) (fuel : ℕ) (nodes : ℕ → Node) (a : ℕ)
    → Chain nodes (nodes a).next ns
    → length ns < fuel
    → last_node fuel nodes a ≡ some (last_of a ns)
unfolding last_node
last_node_lem ns zero nodes a c l = absurd (omega arith)
last_node_lem [] (suc fuel) nodes a c l = rw c refl
last_node_lem (b ∷ bs) (suc fuel) nodes a c l =
    rw (c.0, ==-ne b 0 c.1) (last_node_lem bs fuel nodes b c.2 (omega arith))

store_away : (nodes : ℕ → Node) (q : ℕ) (v : Node) (a : ℕ) → a ≢ q → store nodes q v a ≡ nodes a
store_away nodes q v a n = ground (arith, n)

store_self : (nodes : ℕ → Node) (q : ℕ) (v : Node) → store nodes q v q ≡ v
store_self nodes q v = ground arith

last_of-In : (a : ℕ) (ns : List ℕ) → In (last_of a ns) (a ∷ ns)
last_of-In a [] = inl refl
last_of-In a (b ∷ bs) = inr (last_of-In b bs)

-- A store outside the nodes keeps them.
Chain-store :
    (ns : List ℕ) (nodes : ℕ → Node) (p q : ℕ) (v : Node)
    → ¬ In q ns
    → Chain nodes p ns
    → Chain (store nodes q v) p ns
Chain-store [] nodes p q v out c = c
Chain-store (a ∷ ns) nodes p q v out c = (
  c.0,
  c.1,
  subst (λ n. Chain (store nodes q v) n ns)
      (sym (ap (λ x. x.next) (store_away nodes q v a (λ e. out (inl (sym e))))))
      (Chain-store ns nodes (nodes a).next q v (λ i. out (inr i)) c.2),
)

-- Of a list that is not empty list_count returns one less than the number of its nodes.
pub list_count_lem :
    (ns : List ℕ) (fuel : ℕ) (nodes : ℕ → Node) (p a : ℕ)
    → Chain nodes p (a ∷ ns)
    → length ns < fuel
    → length ns < 2 ^ 32
    → list_count fuel nodes p ≡ some (length ns)
unfolding list_count
list_count_lem ns zero nodes p a c l w = absurd (omega arith)
list_count_lem [] (suc fuel) nodes p a c l w = rw (c.0, ==-ne a 0 c.1, c.2) refl
list_count_lem (b ∷ bs) (suc fuel) nodes p a c l w =
    let rest = list_count_lem bs fuel nodes b b (refl, c.2.1, c.2.2) (omega arith) (omega arith) in
    rw (c.0, ==-ne a 0 c.1, c.2.0, ==-ne b 0 c.2.1, rest) (ap some (omega arith))

-- What list_remove_all frees: for each node its element and then the node.
abbrev pub freed : (ℕ → Node) → List ℕ → List ℕ
freed nodes [] = []
freed nodes (a ∷ ns) = (nodes a).elem ∷ a ∷ freed nodes ns

-- list_remove_all gets through, and frees every element and every node once, in the order of the list.
pub list_remove_all_lem :
    (ns : List ℕ) (fuel : ℕ) (nodes : ℕ → Node) (p : ℕ)
    → Chain nodes p ns
    → length ns < fuel
    → list_remove_all fuel nodes p ≡ some (freed nodes ns)
unfolding list_remove_all
list_remove_all_lem ns zero nodes p c l = absurd (omega arith)
list_remove_all_lem [] (suc fuel) nodes p c l = rw c refl
list_remove_all_lem (a ∷ ns) (suc fuel) nodes p c l =
    rw (c.0, ==-ne a 0 c.1, list_remove_all_lem ns fuel nodes (nodes a).next c.2 (omega arith), c.0)
      refl

-- The last node gets a successor.
Chain-linked :
    (ns : List ℕ) (nodes : ℕ → Node) (p a t : ℕ)
    → Chain nodes p (a ∷ ns)
    → Distinct (a ∷ ns)
    → ¬ In t (a ∷ ns)
    → t ≢ 0
    → (nodes t).next ≡ 0
    → let last = last_of a ns in
      Chain (store nodes last (record (nodes last) { next = t })) p (a ∷ ns ++ t ∷ [])
Chain-linked [] nodes p a t c d out n e = (
  c.0,
  c.1,
  (
    ap (λ x. x.next) (store_self nodes a (record (nodes a) { next = t })),
    n,
    ap (λ x. x.next) (store_away nodes a (record (nodes a) { next = t }) t (λ k. out (inl k))) ∙ e,
  ),
)
Chain-linked (b ∷ bs) nodes p a t c d out n e =
    let rest = Chain-linked bs nodes b b t (refl, c.2.1, c.2.2) d.1 (λ i. out (inr i)) n e in
    (
      c.0,
      c.1,
      (
        ap (λ x. x.next)
              (store_away nodes (last_of b bs) (record (nodes (last_of b bs)) { next = t }) a
                (λ k. d.0 (subst (λ x. In x (b ∷ bs)) (sym k) (last_of-In b bs))))
            ∙ c.2.0,
        c.2.1,
        rest.2,
      ),
    )

-- What list_append leaves: the list with one node more, whose element is the item.
abbrev pub Appended : List ℕ → ℕ → ℕ → (ℕ → Node) → ℕ → Type 0
Appended ns t1 item nodes lst = Chain nodes lst (ns ++ t1 ∷ []) × ((nodes t1).elem ≡ item)

append_refused :
    (fuel : ℕ) (nodes : ℕ → Node) (lst item t1 : ℕ)
    → t1 ≡ 0
    → list_append fuel nodes lst item t1 ≡ some (nodes, lst, negative 1)
unfolding list_append
append_refused fuel nodes lst item t1 z = rw z refl

-- The new node.
abbrev pub new_node : ℕ → Node
new_node item = record { elem = item; next = 0 }

abbrev pub link : (ℕ → Node) → ℕ → ℕ → ℕ → Node
link nodes last t = store nodes last (record (nodes last) { next = t })

append_done :
    (ns : List ℕ) (fuel : ℕ) (nodes : ℕ → Node) (lst item t1 : ℕ)
    → Chain nodes lst ns
    → Distinct ns
    → ¬ In t1 ns
    → length ns < fuel
    → t1 ≢ 0
    → (nodes' : ℕ → Node) × (lst' : ℕ) × (list_append fuel nodes lst item t1
        ≡ some (nodes', lst', 0))
      × Appended ns t1 item nodes' lst'
unfolding list_append
append_done [] fuel nodes lst item t1 c d out l n =
    let made : store nodes t1 (new_node item) t1 ≡ new_node item =
      store_self nodes t1 (new_node item) in
    (
      store nodes t1 (new_node item),
      t1,
      rw (c, ==-ne t1 0 n) refl,
      ((refl, n, ap (λ x. x.next) made), ap (λ x. x.elem) made),
    )
append_done (a ∷ ns) fuel nodes lst item t1 c d out l n =
    let fresh : ℕ → Node = store nodes t1 (new_node item) in
    let made : fresh t1 ≡ new_node item = store_self nodes t1 (new_node item) in
    let kept : Chain fresh lst (a ∷ ns) = Chain-store (a ∷ ns) nodes lst t1 (new_node item) out c in
    let found : last_node fuel fresh lst ≡ some (last_of a ns) =
      ap (last_node fuel fresh) c.0 ∙ last_node_lem ns fuel fresh a kept.2 (omega arith) in
    let apart : t1 ≢ last_of a ns =
      λ e. out (subst (λ x. In x (a ∷ ns)) (sym e) (last_of-In a ns)) in
    (
      link fresh (last_of a ns) t1,
      lst,
      rw (==-ne t1 0 n, ==-ne lst 0 (λ z. c.1 (sym c.0 ∙ z)), found) refl,
      (
        Chain-linked ns fresh lst a t1 kept d out n (ap (λ x. x.next) made),
        ap (λ x. x.elem)
            (store_away fresh (last_of a ns) (record (fresh (last_of a ns)) { next = t1 }) t1 apart
              ∙ made),
      ),
    )

-- On a list of distinct nodes list_append gets through. Without memory it returns -1 and changes
-- nothing; with a new node that is not in the list it returns 0, and the list has this node with
-- the item behind all others.
pub list_append_lem :
    (ns : List ℕ) (fuel : ℕ) (nodes : ℕ → Node) (lst item t1 : ℕ)
    → Chain nodes lst ns
    → Distinct ns
    → ¬ In t1 ns
    → length ns < fuel
    → (nodes' : ℕ → Node) × (lst' : ℕ) × (status : ℕ) × (list_append fuel nodes lst item t1
        ≡ some (nodes', lst', status))
      × (((t1 ≡ 0) × (status ≡ negative 1) × (nodes' ≡ nodes) × (lst' ≡ lst))
          ⊎ ((t1 ≢ 0) × (status ≡ 0) × Appended ns t1 item nodes' lst'))
list_append_lem ns fuel nodes lst item t1 c d out l = elim (ℕ_discrete t1 0) [
  | yes z ↦
      (nodes, lst, negative 1, append_refused fuel nodes lst item t1 z, inl (z, refl, refl, refl))
  | no n ↦
      let (nodes', lst', e, a) = append_done ns fuel nodes lst item t1 c d out l n in
      (nodes', lst', 0, e, inr (n, refl, a))
]
