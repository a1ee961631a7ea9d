-- ===== src/Malloc/Below.antt =====
-- The second step of `free`.
use prpl_hypervisor.Base.{
  ℕ, ◌+◌, ◌<◌, ◌≡◌, ◌≢◌, refl, sym, ap, ◌∙◌, subst, ◌⊎◌, inl, inr, arith, List, ◌∷◌, In, ==-ne,
  ==-refl, if◌then◌else◌, add32, true, ◌==◌,
}
use native.Mathlib.Decide.{ℕ_discrete, dec_lt}
use prpl_hypervisor.Machine.{store}
use prpl_hypervisor.Malloc.{Heap, advance, join_below}
use prpl_hypervisor.Malloc.Gap.{gap}
use prpl_hypervisor.Malloc.Blocks.{IsFreeList, Covers, Within}
use prpl_hypervisor.Malloc.Insert.{IsFreeList-link, IsFreeList-resize}
use prpl_hypervisor.Malloc.Join.{IsReady, Bytes, SameBytes}

module _ (s : Heap) (q b : ℕ) (us : List ℕ) (r : IsReady s.next s.size q b us) where
  clear :
      advance q (s.size q) ≢ b
      → (a : ℕ) → In a (q ∷ us)
      → ((a < b) × (advance a (s.size a) < b)) ⊎ ((b < a) × (advance b (s.size b) < a))
  clear m a (inr i) = r.others a i
  clear m a (inl k) =
      subst (λ y. ((y < b) × (advance y (s.size y) < b)) ⊎ ((b < y) × (advance b (s.size b) < y)))
        (sym k) (elim r.first [ inl h ↦ inl (h.0, omega (arith, h.1, m)) | inr h ↦ inr h ])

  -- The block below points to the new one.
  pub IsFreeList-linked :
      advance q (s.size q) ≢ b
      → let s' = join_below s b q in
        IsFreeList s'.next s'.size (s'.freep ∷ b ∷ us)
        × SameBytes (Bytes s.size (q ∷ us) b) (Covers s'.size (s'.freep ∷ b ∷ us))
  unfolding join_below
  IsFreeList-linked m =
      let past : ℕ → ℕ = store s.next q (s.next b) in
      let next' : ℕ → ℕ = store s.next q b in
      let at_q : past q ≡ s.next b = ap (λ c. if c then s.next b else s.next q) (==-refl q) in
      rw (==-ne (advance q (s.size q)) b m) (
        IsFreeList-link past next' s.size q b us r.valid
            (r.some_block.0, r.some_block.1, r.some_block.2, clear m)
            (subst (λ n. gap q b < gap q n) (sym at_q) r.near)
            (ap (λ c. if c then b else s.next q) (==-refl q))
            (ap (λ c. if c then b else s.next b) (==-ne b q apart) ∙ sym at_q) kept,
        (entered, left),
      )
    where
      apart : b ≢ q
      apart e = elim r.first [ inl h ↦ absurd (omega arith) | inr h ↦ absurd (omega arith) ]

      kept : (a : ℕ) → In a us → store s.next q b a ≡ store s.next q (s.next b) a
      kept a i =
          let n : a ≢ q = λ k. r.valid.distinct.0 (subst (λ y. In y us) k i) in ground (arith, n)

      entered : (x : ℕ) → Bytes s.size (q ∷ us) b x → Covers s.size (q ∷ b ∷ us) x
      entered x (inl (a, inl k, l, u)) = (a, inl k, l, u)
      entered x (inl (a, inr i, l, u)) = (a, inr (inr i), l, u)
      entered x (inr w) = (b, inr (inl refl), w.0, w.1)

      left : (x : ℕ) → Covers s.size (q ∷ b ∷ us) x → Bytes s.size (q ∷ us) b x
      left x (a, inl k, l, u) = inl (a, inl k, l, u)
      left x (a, inr (inr i), l, u) = inl (a, inr i, l, u)
      left x (a, inr (inl k), l, u) = inr (subst (λ y. Within y (s.size y) x) k (l, u))

  module _ (e : advance q (s.size q) ≡ b) where
    abbrev size' : ℕ → ℕ
    size' = store s.size q (add32 (s.size q) (s.size b))

    sum : size' q ≡ s.size q + s.size b
    sum =
        ap (λ c. if c then add32 (s.size q) (s.size b) else s.size q) (==-refl q)
        ∙ omega (arith, e, r.some_block.2)

    size_kept : (a : ℕ) → In a (q ∷ us) → a ≢ q → size' a ≡ s.size a
    size_kept a i n = ap (λ c. if c then add32 (s.size q) (s.size b) else s.size a) (==-ne a q n)

    beyond : (x : ℕ) → In x (q ∷ us) → q < x → advance q (size' q) < x
    beyond x (inl k) l = absurd (omega arith)
    beyond x (inr i) l =
        let h = r.valid.apart q x (inl refl) (inr i) l in
        elim (r.others x i) [ inl k ↦ absurd (omega arith) | inr k ↦ omega (arith, sum, e) ]

    bytes : SameBytes (Bytes s.size (q ∷ us) b) (Covers size' (q ∷ us))
    bytes = (joined, parted)
      where
        joined : (x : ℕ) → Bytes s.size (q ∷ us) b x → Covers size' (q ∷ us) x
        joined x (inr w) = (q, inl refl, omega (arith, w.0, e), omega (arith, w.1, sum, e))
        joined x (inl c) = elim (ℕ_discrete c.0 q) [
          | yes k ↦
              let w : Within q (s.size q) x = subst (λ y. Within y (s.size y) x) k (c.2, c.3) in
              (q, inl refl, w.0, omega (arith, w.1, sum))
          | no n ↦ (c.0, c.1, c.2, subst (λ k. x < advance c.0 k) (sym (size_kept c.0 c.1 n)) c.3)
        ]

        parted : (x : ℕ) → Covers size' (q ∷ us) x → Bytes s.size (q ∷ us) b x
        parted x c = elim (ℕ_discrete c.0 q) [
          | yes k ↦
              let w : Within q (size' q) x = subst (λ y. Within y (size' y) x) k (c.2, c.3) in
              elim (dec_lt x b) [
                | yes h ↦ inl (q, inl refl, w.0, omega (arith, h, e))
                | no h ↦ inr (omega (arith, h), omega (arith, w.1, sum, e))
              ]
          | no n ↦ inl (c.0, c.1, c.2, subst (λ k. x < advance c.0 k) (size_kept c.0 c.1 n) c.3)
        ]

    touch : (advance q (s.size q) == b) ≡ true
    touch = ap (λ n. n == b) e ∙ ==-refl b

    -- The block below takes the new one in.
    pub IsFreeList-joined :
        let s' = join_below s b q in
        IsFreeList s'.next s'.size (s'.freep ∷ us)
        × SameBytes (Bytes s.size (q ∷ us) b) (Covers s'.size (s'.freep ∷ us))
    unfolding join_below
    IsFreeList-joined = rw touch (
      IsFreeList-resize (store s.next q (s.next b)) s.size size' (q ∷ us) q r.valid
          (omega (arith, sum, r.some_block.1)) (omega (arith, sum, e, r.some_block.2)) beyond
          size_kept,
      bytes,
    )
