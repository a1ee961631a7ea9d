-- ===== src/InterVm/Init.antt =====
-- `intervm_init`: where the driver's handlers stand in the table of hypercalls.
use native.Mathlib.Decide.{ℕ_discrete}
use prpl_hypervisor.Base.{
  ℕ, ◌<◌, ◌≡◌, ap, ◌∙◌, List, Option, none, some, arith, length, length-set, set, get_or-set_self,
  get_or-set_ne, ◌==◌, if◌then◌else◌,
}
use prpl_hypervisor.Hypercall.{entry, table_size}
use prpl_hypervisor.Hypercall.Laws.{register_or_stop_free}
use prpl_hypervisor.InterVm.{intervm_init}

module _ {ℓ} {H : Type ℓ} where
  -- A read of a place after a write.
  entry-set :
      (table : List (Option H)) (i j : ℕ) (x : Option H)
      → i < length table
      → entry (set table i x) j ≡ (if i == j then x else entry table j)
  entry-set table i j x lt = elim (ℕ_discrete i j) [
    | yes e ↦ ground (arith, get_or-set_self table i x none lt)
    | no n ↦ ground (arith, get_or-set_ne table x none n)
  ]

  -- The table with the four handlers, at the place `i`.
  entry_four :
      (table : List (Option H)) (a b c d : Option H) (i : ℕ)
      → length table ≡ table_size
      → entry (set (set (set (set table 0 a) 2 b) 1 c) 3 d) i ≡ (
          if 3 == i
          then d
          else if 1 == i
          then c
          else if 2 == i
          then b
          else if 0 == i
          then a
          else entry table i)
  entry_four table a b c d i l =
      entry-set (set (set (set table 0 a) 2 b) 1 c) 3 i d (
        omega (
          arith,
          length-set (set (set table 0 a) 2 b) 1 c,
          length-set (set table 0 a) 2 b,
          length-set table 0 a,
        ))
      ∙ ap (λ x. if 3 == i then d else x)
          (entry-set (set (set table 0 a) 2 b) 1 i c
              (omega (arith, length-set (set table 0 a) 2 b, length-set table 0 a))
            ∙ ap (λ x. if 1 == i then c else x)
                (entry-set (set table 0 a) 2 i b (omega (arith, length-set table 0 a))
                  ∙ ap (λ x. if 2 == i then b else x) (entry-set table 0 i a (omega arith))))

  intervm_init-set :
      (table : List (Option H)) (vm_id send recv up : H)
      → length table ≡ table_size
      → entry table 0 ≡ none
      → entry table 1 ≡ none
      → entry table 2 ≡ none
      → entry table 3 ≡ none
      → intervm_init vm_id send recv up table
        ≡ set (set (set (set table 0 (some vm_id)) 2 (some send)) 1 (some recv)) 3 (some up)
  unfolding intervm_init
  intervm_init-set table vm_id send recv up l e0 e1 e2 e3 =
      register_or_stop_free table vm_id 0 (λ t. t) _ (omega arith) e0
      ∙ register_or_stop_free t1 send 2 (λ t. t) _ (omega arith)
          (entry-set table 0 2 (some vm_id) (omega arith) ∙ e2)
      ∙ register_or_stop_free t2 recv 1 (λ t. t) _ (omega arith)
          (entry-set t1 2 1 (some send) (omega (arith, l1))
            ∙ entry-set table 0 1 (some vm_id) (omega arith)
            ∙ e1)
      ∙ register_or_stop_free t3 up 3 (λ t. t) _ (omega arith)
          (entry-set t2 1 3 (some recv) (omega (arith, l1, l2))
            ∙ entry-set t1 2 3 (some send) (omega (arith, l1))
            ∙ entry-set table 0 3 (some vm_id) (omega arith)
            ∙ e3)
    where
      t1 : List (Option H)
      t1 = set table 0 (some vm_id)

      t2 : List (Option H)
      t2 = set t1 2 (some send)

      t3 : List (Option H)
      t3 = set t2 1 (some recv)

      l1 : length t1 ≡ length table
      l1 = length-set table 0 (some vm_id)

      l2 : length t2 ≡ length t1
      l2 = length-set t1 2 (some send)

  -- In a table of thirty places whose first four are free, `intervm_init` enters the four handlers at
  -- the codes 0 to 3, and leaves any other place as it was.
  pub intervm_init_lem :
      (table : List (Option H)) (vm_id send recv up : H) (other : ℕ)
      → length table ≡ table_size
      → entry table 0 ≡ none
      → entry table 1 ≡ none
      → entry table 2 ≡ none
      → entry table 3 ≡ none
      → 3 < other
      → let table' = intervm_init vm_id send recv up table in
        (entry table' 0 ≡ some vm_id)
        × (entry table' 1 ≡ some recv)
        × (entry table' 2 ≡ some send)
        × (entry table' 3 ≡ some up)
        × (entry table' other ≡ entry table other)
  intervm_init_lem table vm_id send recv up other l e0 e1 e2 e3 lt =
      (place 0, place 1, place 2, place 3, place other ∙ ground arith)
    where
      place :
          (i : ℕ)
          → entry (intervm_init vm_id send recv up table) i ≡ (
              if 3 == i
              then some up
              else if 1 == i
              then some recv
              else if 2 == i
              then some send
              else if 0 == i
              then some vm_id
              else entry table i)
      place i =
          ap (λ t. entry t i) (intervm_init-set table vm_id send recv up l e0 e1 e2 e3)
          ∙ entry_four table (some vm_id) (some send) (some recv) (some up) i l
