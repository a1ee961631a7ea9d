-- ===== src/Malloc/Join.antt =====
-- What `free` does with a block at its place: it joins the block above, and the block below joins it.
use prpl_hypervisor.Base.{
  ℕ, ◌^◌, ◌≤◌, ◌<◌, ◌≡◌, ◌≢◌, refl, sym, ap, subst, ◌⊎◌, inl, inr, arith, List, ◌∷◌, In, ==-ne,
  ==-refl, if◌then◌else◌,
}
use native.Mathlib.Decide.{dec_lt}
use prpl_hypervisor.Machine.{store}
use prpl_hypervisor.Malloc.{Heap, advance, join_above}
use prpl_hypervisor.Malloc.Ring.{Ring-In}
use prpl_hypervisor.Malloc.Gap.{gap, gap-above, gap-below}
use prpl_hypervisor.Malloc.Blocks.{IsFreeList, IsFreeList-agree, Covers, Within, below_word}

-- The byte at `x` is in a free block or in the block `b`.
abbrev pub Bytes : (ℕ → ℕ) → List ℕ → ℕ → ℕ → Type 0
Bytes size rs b x = Covers size rs x ⊎ Within b (size b) x

abbrev pub SameBytes : (ℕ → Type 0) → (ℕ → Type 0) → Type 0
SameBytes P Q = ((x : ℕ) → P x → Q x) × ((x : ℕ) → Q x → P x)

-- Between the two steps: with `q` linked past `b` to b's successor the free list is valid, and `b` stands
-- in the gap of `q`; memory in use lies between `b` and all blocks but `q`, which it may touch from above.
pub record IsReady (next size : ℕ → ℕ) (q b : ℕ) (us : List ℕ) : Type 0 where
  pub valid : IsFreeList (store next q (next b)) size (q ∷ us)
  pub some_block : (b ≢ 0) × (size b ≢ 0) × (advance b (size b) ≤ 2 ^ 32)
  pub near : gap q b < gap q (next b)
  pub first : ((q < b) × (advance q (size q) ≤ b)) ⊎ ((b < q) × (advance b (size b) < q))
  pub others :
      (a : ℕ)
      → In a us
      → ((a < b) × (advance a (size a) < b)) ⊎ ((b < a) × (advance b (size b) < a))

module _ (s : Heap) (q b : ℕ) (us : List ℕ) (v : IsFreeList s.next s.size (q ∷ us))
    (some_block : (b ≢ 0) × (s.size b ≢ 0) × (advance b (s.size b) ≤ 2 ^ 32))
    (away : (x : ℕ) → Within b (s.size b) x → ¬ Covers s.size (q ∷ us) x)
    (near : gap q b < gap q (s.next q)) where
  pub apart :
      (a : ℕ)
      → In a (q ∷ us)
      → ((a < b) × (advance a (s.size a) ≤ b)) ⊎ ((b < a) × (advance b (s.size b) ≤ a))
  apart a i = elim (dec_lt a b) [
    | yes l ↦ elim (dec_lt b (advance a (s.size a))) [
      | yes k ↦ absurd (away b (omega arith, omega arith) (a, i, omega arith, k))
      | no k ↦ inl (l, omega arith)
    ]
    | no l ↦ elim (dec_lt a (advance b (s.size b))) [
      | yes k ↦
          let h = v.bounds a i in absurd (away a (omega arith, k) (a, i, omega arith, omega arith))
      | no k ↦ inr (omega arith, omega arith)
    ]
  ]

  pub out : ¬ In b (q ∷ us)
  out i = elim (apart b i) [ inl h ↦ absurd (omega arith) | inr h ↦ absurd (omega arith) ]

  pub word : (a : ℕ) → In a (q ∷ us) → a < 2 ^ 32
  word a i = below_word s.next s.size (q ∷ us) a v i

  pub n_in : In (s.next q) (q ∷ us)
  n_in = Ring-In (q ∷ us) s.next q v.ring (inl refl)

  pub above : (a : ℕ) → In a (q ∷ us) → b < a → (b < s.next q) × (s.next q ≤ a)
  above a i l =
      gap-above q (s.next q) b a (word q (inl refl)) (word (s.next q) n_in) (omega arith) (word a i)
        (λ e. out (inl (sym e))) near (v.order q a (inl refl) i) l

  pub below : (a : ℕ) → In a (q ∷ us) → a < b → (q < b) × (a ≤ q)
  below a i l =
      gap-below q (s.next q) b a (word q (inl refl)) (word (s.next q) n_in) (omega arith) (word a i)
        (λ e. out (inl (sym e))) near (v.order q a (inl refl) i) l

  -- A block of the ring other than `q` that is below `b` is clear of it.
  pub clear_below : (a : ℕ) → In a us → a < b → advance a (s.size a) < b
  clear_below a i l =
      let h = below a (inr i) l in
      let d : a ≢ q = λ e. v.distinct.0 (subst (λ y. In y us) e i) in
      let k = v.apart a q (inr i) (inl refl) (omega arith) in omega arith

  next_above :
      advance b (s.size b) ≢ s.next q → (a : ℕ) → In a (q ∷ us) → b < a → advance b (s.size b) < a
  next_above m a i l =
      let h = above a i l in
      elim (apart (s.next q) n_in) [ inl k ↦ absurd (omega arith) | inr k ↦ omega arith ]

  -- The block points to its successor.
  pub IsReady-linked :
      advance b (s.size b) ≢ s.next q
      → let s' = join_above s b q in
        IsReady s'.next s'.size q b us
        × SameBytes (Bytes s.size (q ∷ us) b) (Bytes s'.size (q ∷ us) b)
  unfolding join_above
  IsReady-linked m =
      let next' : ℕ → ℕ = store s.next b (s.next q) in
      let same : (a : ℕ) → In a (q ∷ us) → store next' q (next' b) a ≡ s.next a =
        λ a i. linked a (λ e. out (subst (λ y. In y (q ∷ us)) e i)) in
      rw (==-ne (advance b (s.size b)) (s.next q) m) (
        record {
          valid =
              IsFreeList-agree s.next (store next' q (next' b)) s.size s.size (q ∷ us) v same
                (λ a i. refl);
          some_block = some_block;
          near = subst (λ n. gap q b < gap q n) (sym stored) near;
          first = elim (apart q (inl refl)) [
            | inl h ↦ inl h
            | inr h ↦ inr (h.0, next_above m q (inl refl) h.0)
          ];
          others = λ a i. elim (apart a (inr i)) [
            | inl h ↦ inl (h.0, clear_below a i h.0)
            | inr h ↦ inr (h.0, next_above m a (inr i) h.0)
          ];
        },
        ((λ x c. c), λ x c. c),
      )
    where
      stored : store s.next b (s.next q) b ≡ s.next q
      stored = ap (λ t. if t then s.next q else s.next b) (==-refl b)

      linked :
          (a : ℕ)
          → a ≢ b
          → store (store s.next b (s.next q)) q (store s.next b (s.next q) b) a ≡ s.next a
      linked a n = ground (arith, n)
