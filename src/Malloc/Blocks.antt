-- ===== src/Malloc/Blocks.antt =====
-- The validity of the free list.
use prpl_hypervisor.Base.{
  ℕ, ◌^◌, ◌≤◌, ◌<◌, ◌≡◌, ◌≢◌, refl, sym, ◌∙◌, subst, inl, inr, arith, List, [], ◌∷◌, ◌++◌, In,
  Distinct, In-swap, Distinct-swap,
}
use prpl_hypervisor.Malloc.{advance}
use prpl_hypervisor.Malloc.Ring.{Ring, Ring-rotate, Ring-In, Link, Link-agree}
use prpl_hypervisor.Malloc.Gap.{gap, gap-skip}

-- The free list is the ring `rs`: in the order of the addresses, and with memory in use between any two
-- blocks.
pub record IsFreeList (next size : ℕ → ℕ) (rs : List ℕ) : Type 0 where
  pub ring : Ring next rs
  pub distinct : Distinct rs
  pub bounds : (a : ℕ) → In a rs → (a ≢ 0) × (size a ≢ 0) × (advance a (size a) ≤ 2 ^ 32)
  pub apart : (a x : ℕ) → In a rs → In x rs → a < x → advance a (size a) < x
  pub order : (a x : ℕ) → In a rs → In x rs → gap a (next a) ≤ gap a x

-- The byte at `x` is in a free block.
abbrev pub Covers : (ℕ → ℕ) → List ℕ → ℕ → Type 0
Covers size rs x = (a : ℕ) × In a rs × (a ≤ x) × (x < advance a (size a))

-- The byte at `x` is in the `n` units from `a` on.
abbrev pub Within : ℕ → ℕ → ℕ → Type 0
Within a n x = (a ≤ x) × (x < advance a n)

pub below_word :
    (next size : ℕ → ℕ) (rs : List ℕ) (a : ℕ) → IsFreeList next size rs → In a rs → a < 2 ^ 32
below_word next size rs a v i = let b = v.bounds a i in omega arith

-- The ring may be read from its second block on.
pub IsFreeList-rotate :
    (next size : ℕ → ℕ) (p t : ℕ) (ts : List ℕ)
    → IsFreeList next size (p ∷ t ∷ ts)
    → IsFreeList next size (t ∷ ts ++ p ∷ [])
IsFreeList-rotate next size p t ts v =
    let back : (a : ℕ) → In a (t ∷ ts ++ p ∷ []) → In a (p ∷ t ∷ ts) = In-swap (t ∷ ts) (p ∷ []) in
    record {
      ring = Ring-rotate next p t ts v.ring;
      distinct = Distinct-swap (p ∷ []) (t ∷ ts) v.distinct;
      bounds = λ a i. v.bounds a (back a i);
      apart = λ a x i j. v.apart a x (back a i) (back x j);
      order = λ a x i j. v.order a x (back a i) (back x j);
    }

-- Only the headers of the blocks are read.
pub IsFreeList-agree :
    (next next' size size' : ℕ → ℕ) (rs : List ℕ)
    → IsFreeList next size rs
    → ((a : ℕ) → In a rs → next' a ≡ next a)
    → ((a : ℕ) → In a rs → size' a ≡ size a)
    → IsFreeList next' size' rs
IsFreeList-agree next next' size size' [] v h k = absurd v.ring
IsFreeList-agree next next' size size' (p ∷ ts) v h k = record {
  ring = Link-agree ts next next' p p h v.ring;
  distinct = v.distinct;
  bounds =
      λ a i. subst (λ n. (a ≢ 0) × (n ≢ 0) × (advance a n ≤ 2 ^ 32)) (sym (k a i)) (v.bounds a i);
  apart = λ a x i j l. subst (λ n. advance a n < x) (sym (k a i)) (v.apart a x i j l);
  order = λ a x i j. subst (λ n. gap a n ≤ gap a x) (sym (h a i)) (v.order a x i j);
}

-- The block after the first leaves the ring.
pub IsFreeList-unlink :
    (next next' size : ℕ → ℕ) (p n : ℕ) (ts : List ℕ)
    → IsFreeList next size (p ∷ n ∷ ts)
    → next' p ≡ next n
    → ((a : ℕ) → In a ts → next' a ≡ next a)
    → IsFreeList next' size (p ∷ ts)
IsFreeList-unlink next next' size p n ts v first rest =
    let up : (a : ℕ) → In a (p ∷ ts) → In a (p ∷ n ∷ ts) = λ a i. keep a i in
    record {
      ring = linked ts v.ring rest;
      distinct = ((λ i. v.distinct.0 (inr i)), v.distinct.1.1);
      bounds = λ a i. v.bounds a (up a i);
      apart = λ a x i j. v.apart a x (up a i) (up x j);
      order = ordered;
    }
  where
    keep : (a : ℕ) → In a (p ∷ ts) → In a (p ∷ n ∷ ts)
    keep a (inl e) = inl e
    keep a (inr i) = inr (inr i)

    word : (a : ℕ) → In a (p ∷ n ∷ ts) → a < 2 ^ 32
    word a i = below_word next size (p ∷ n ∷ ts) a v i

    linked :
        (us : List ℕ)
        → Ring next (p ∷ n ∷ us)
        → ((a : ℕ) → In a us → next' a ≡ next a)
        → Link next' p us p
    linked [] r h = first ∙ r.1
    linked (u ∷ us) r h = (first ∙ r.1.0, Link-agree us next next' u p h r.1.1)

    not_n : (x : ℕ) → In x (p ∷ ts) → x ≢ n
    not_n x (inl e) k = v.distinct.0 (inl (sym e ∙ k))
    not_n x (inr i) k = v.distinct.1.0 (subst (λ y. In y ts) k i)

    of_p : (x : ℕ) → In x (p ∷ ts) → gap p (next n) ≤ gap p x
    of_p x j =
        gap-skip p n (next n) x (word p (inl refl)) (word n (inr (inl refl)))
          (word (next n) (Ring-In (p ∷ n ∷ ts) next n v.ring (inr (inl refl)))) (word x (keep x j))
          (not_n x j) (subst (λ y. gap p y ≤ gap p x) v.ring.0 (v.order p x (inl refl) (keep x j)))
          (v.order n x (inr (inl refl)) (keep x j)) (v.order n p (inr (inl refl)) (inl refl))

    ordered : (a x : ℕ) → In a (p ∷ ts) → In x (p ∷ ts) → gap a (next' a) ≤ gap a x
    ordered a x (inl e) j =
        subst (λ y. gap y (next' y) ≤ gap y x) (sym e)
          (subst (λ y. gap p y ≤ gap p x) (sym first) (of_p x j))
    ordered a x (inr i) j =
        subst (λ y. gap a y ≤ gap a x) (sym (rest a i)) (v.order a x (inr (inr i)) (keep x j))
