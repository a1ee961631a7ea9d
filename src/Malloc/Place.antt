-- ===== src/Malloc/Place.antt =====
-- Where `free` puts a block.
use prpl_hypervisor.Base.{
  ℕ, zero, suc, ◌^◌, ◌≤◌, ◌<◌, ◌≡◌, refl, sym, subst, inl, inr, arith, List, [], ◌∷◌, ◌++◌, In,
  some, Bool-cases,
}
use prpl_hypervisor.Malloc.{is_place, find_place}
use prpl_hypervisor.Malloc.Ring.{Ring-In}
use prpl_hypervisor.Malloc.Gap.{gap, is_place-true, is_place-false, gap-next}
use prpl_hypervisor.Malloc.Blocks.{IsFreeList, IsFreeList-rotate, below_word}
use prpl_hypervisor.Malloc.Search.{SameMembers}
use prpl_hypervisor.Base.{In-swap}

-- The loop ends at a block of the ring whose gap has the address: with each step the address is nearer.
pub find_place_lem :
    (fuel : ℕ) (next size : ℕ → ℕ) (bp p : ℕ) (ts : List ℕ)
    → IsFreeList next size (p ∷ ts)
    → ¬ In bp (p ∷ ts)
    → bp < 2 ^ 32
    → gap p bp < fuel
    → (q : ℕ) × (us : List ℕ) × (find_place fuel next bp p ≡ some q)
      × IsFreeList next size (q ∷ us)
      × (gap q bp < gap q (next q))
      × SameMembers (q ∷ us) (p ∷ ts)
unfolding find_place
find_place_lem zero next size bp p ts v out w f = absurd (omega arith)
find_place_lem (suc fuel) next size bp p ts v out w f = elim (Bool-cases (is_place next bp p)) [
  | inl t ↦ (
    p,
    ts,
    rw t refl,
    v,
    is_place-true p bp (word p (inl refl)) w (λ e. out (inl (sym e))) next t,
    ((λ a i. i), λ a i. i),
  )
  | inr t ↦
      let nearer : gap p (next p) ≤ gap p bp =
        is_place-false p bp (word p (inl refl)) w (λ e. out (inl (sym e))) next t
          (word (next p) (Ring-In (p ∷ ts) next p v.ring (inl refl))) in
      let (us, w', same) = turned ts v in
      let step : gap (next p) bp < gap p bp =
        gap-next p (next p) bp (word p (inl refl)) (word (next p) (same.0 (next p) (inl refl))) w
          (λ e. out (same.0 bp (inl (sym e)))) nearer in
      let (q, rs, e, r, g, alike) =
        find_place_lem fuel next size bp (next p) us w' (λ i. out (same.0 bp i)) w (omega arith) in
      (q, rs, rw t e, r, g, ((λ a i. same.0 a (alike.0 a i)), λ a i. alike.1 a (same.1 a i)))
]
  where
    word : (a : ℕ) → In a (p ∷ ts) → a < 2 ^ 32
    word a i = below_word next size (p ∷ ts) a v i

    turned :
        (ts : List ℕ)
        → IsFreeList next size (p ∷ ts)
        → (us : List ℕ) × IsFreeList next size (next p ∷ us) × SameMembers (next p ∷ us) (p ∷ ts)
    turned [] v =
        subst (λ y. (us : List ℕ) × IsFreeList next size (y ∷ us) × SameMembers (y ∷ us) (p ∷ []))
          (sym v.ring) ([], v, ((λ a i. i), λ a i. i))
    turned (t ∷ us) v =
        subst
          (λ y. (rs : List ℕ) × IsFreeList next size (y ∷ rs) × SameMembers (y ∷ rs) (p ∷ t ∷ us))
          (sym v.ring.0)
          (
            us ++ p ∷ [],
            IsFreeList-rotate next size p t us v,
            (In-swap (t ∷ us) (p ∷ []), In-swap (p ∷ []) (t ∷ us)),
          )
