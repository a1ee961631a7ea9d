-- ===== src/Malloc/Search.antt =====
-- The search of `malloc` for a block.
use prpl_hypervisor.Base.{
  ℕ, zero, suc, ◌≤◌, ◌<◌, ◌≡◌, ◌≢◌, refl, sym, ◌∙◌, subst, ◌⊎◌, inl, inr, arith, List, [], ◌∷◌,
  ◌++◌, append_assoc, In, In-append_right, In-swap, Distinct, length, Option, some, Bool-cases, leb,
  leb→le, ==-ne, ==-refl, false,
}
use native.Mathlib.Decide.{ℕ_discrete}
use prpl_hypervisor.Malloc.{Heap, search_block, take_block}
use prpl_hypervisor.Malloc.Ring.{Link}
use prpl_hypervisor.Malloc.Blocks.{IsFreeList, IsFreeList-rotate}

-- The two lists have the same members.
abbrev pub SameMembers : List ℕ → List ℕ → Type 0
SameMembers xs ys = ((a : ℕ) → In a xs → In a ys) × ((a : ℕ) → In a ys → In a xs)

-- What the search finds in the ring `rs`: nothing, as every block is too small, or a block that is
-- large enough behind `q`, the first block of the ring when it is read from there on.
abbrev pub Found : Heap → List ℕ → ℕ → Option (Heap × ℕ) → Type 0
Found s rs nunits result =
    ((result ≡ some (s, 0)) × ((a : ℕ) → In a rs → s.size a < nunits))
    ⊎ ((q : ℕ) × (ts : List ℕ) × (result ≡ some (take_block s q (s.next q) nunits))
        × IsFreeList s.next s.size (q ∷ ts)
        × (nunits ≤ s.size (s.next q))
        × SameMembers (q ∷ ts) rs)

leb-gt : (a b : ℕ) → leb a b ≡ false → b < a
leb-gt a b h = ground arith

Distinct-ne :
    (xs ys : List ℕ) (x y : ℕ) → Distinct (x ∷ y ∷ xs ++ ys) → (e : ℕ) → In e (x ∷ ys) → y ≢ e
Distinct-ne xs ys x y d e (inl k) h = d.0 (inl (sym k ∙ sym h))
Distinct-ne xs ys x y d e (inr i) h =
    d.1.0 (In-append_right xs ys y (subst (λ z. In z ys) (sym h) i))

pub search_block_lem :
    (rest visited rs : List ℕ) (fuel : ℕ) (s : Heap) (prevp nunits : ℕ)
    → IsFreeList s.next s.size (prevp ∷ rest ++ visited)
    → Link s.next prevp rest s.freep
    → ((a : ℕ) → In a (prevp ∷ visited) → a ≢ s.freep → s.size a < nunits)
    → In s.freep (prevp ∷ visited)
    → SameMembers (prevp ∷ rest ++ visited) rs
    → length rest < fuel
    → Found s rs nunits (search_block fuel s prevp (s.next prevp) nunits)
unfolding search_block
search_block_lem rest visited rs zero s prevp nunits v l small at same f = absurd (omega arith)
search_block_lem [] visited rs (suc fuel) s prevp nunits v l small at same f =
    elim (Bool-cases (leb nunits (s.size (s.next prevp)))) [
      | inl t ↦ inr (prevp, visited, rw t refl, v, leb→le nunits (s.size (s.next prevp)) t, same)
      | inr t ↦ inl (
        rw (t, l, ==-refl s.freep) refl,
        λ a i. elim (ℕ_discrete a s.freep) [
          | yes e ↦
              subst (λ y. s.size y < nunits) (l ∙ sym e) (leb-gt nunits (s.size (s.next prevp)) t)
          | no n ↦ small a (same.1 a i) n
        ],
      )
    ]
search_block_lem (r ∷ rest) visited rs (suc fuel) s prevp nunits v l small at same f =
    elim (Bool-cases (leb nunits (s.size (s.next prevp)))) [
      | inl t ↦
          inr (
            prevp,
            r ∷ rest ++ visited,
            rw t refl,
            v,
            leb→le nunits (s.size (s.next prevp)) t,
            same,
          )
      | inr t ↦
          let again : Found s rs nunits (search_block fuel s r (s.next r) nunits) =
            search_block_lem rest (visited ++ prevp ∷ []) rs fuel s r nunits
              (subst (λ us. IsFreeList s.next s.size (r ∷ us))
                (append_assoc rest visited (prevp ∷ []))
                (IsFreeList-rotate s.next s.size prevp r (rest ++ visited) v))
              l.1 (too_small t) kept (turned, unturned) (omega arith) in
          subst (λ o. Found s rs nunits o)
            (sym (
              rw (t, l.0, ==-ne r s.freep (Distinct-ne rest visited prevp r v.distinct s.freep at))
                refl))
            again
    ]
  where
    move : (a : ℕ) → In a (r ∷ visited ++ prevp ∷ []) → (a ≡ r) ⊎ In a (prevp ∷ visited)
    move a (inl e) = inl e
    move a (inr i) = inr (In-swap visited (prevp ∷ []) a i)

    too_small :
        leb nunits (s.size (s.next prevp)) ≡ false
        → (a : ℕ) → In a (r ∷ visited ++ prevp ∷ [])
        → a ≢ s.freep
        → s.size a < nunits
    too_small t a i n = elim (move a i) [
      | inl e ↦
          subst (λ y. s.size y < nunits) (l.0 ∙ sym e) (leb-gt nunits (s.size (s.next prevp)) t)
      | inr j ↦ small a j n
    ]

    kept : In s.freep (r ∷ visited ++ prevp ∷ [])
    kept = inr (In-swap (prevp ∷ []) visited s.freep at)

    around : rest ++ visited ++ prevp ∷ [] ≡ rest ++ (visited ++ prevp ∷ [])
    around = append_assoc rest visited (prevp ∷ [])

    turned : (a : ℕ) → In a (r ∷ rest ++ (visited ++ prevp ∷ [])) → In a rs
    turned a i =
        same.0 a (
          In-swap (r ∷ rest ++ visited) (prevp ∷ []) a (subst (λ us. In a (r ∷ us)) (sym around) i))

    unturned : (a : ℕ) → In a rs → In a (r ∷ rest ++ (visited ++ prevp ∷ []))
    unturned a i =
        subst (λ us. In a (r ∷ us)) around
          (In-swap (prevp ∷ []) (r ∷ rest ++ visited) a (same.1 a i))
