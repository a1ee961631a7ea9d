-- ===== src/Malloc/Insert.antt =====
-- A block enters the ring, and a block of the ring gets another size.
use prpl_hypervisor.Base.{
  ℕ, ◌^◌, ◌≤◌, ◌<◌, ◌≡◌, ◌≢◌, refl, sym, ◌∙◌, subst, ◌⊎◌, inl, inr, arith, List, [], ◌∷◌, In,
}
use native.Mathlib.Decide.{ℕ_discrete}
use prpl_hypervisor.Malloc.{advance}
use prpl_hypervisor.Malloc.Ring.{Ring-In, Link, Link-agree}
use prpl_hypervisor.Malloc.Gap.{gap, gap-between, gap-after}
use prpl_hypervisor.Malloc.Blocks.{IsFreeList, below_word}

-- The block at `b` may stand among the blocks of `rs`: it has a size, it ends within memory, and
-- memory in use lies between it and each of them.
abbrev pub Fits : (ℕ → ℕ) → List ℕ → ℕ → Type 0
Fits size rs b =
    (b ≢ 0)
    × (size b ≢ 0)
    × (advance b (size b) ≤ 2 ^ 32)
    × ((a : ℕ)
        → In a rs
        → ((a < b) × (advance a (size a) < b)) ⊎ ((b < a) × (advance b (size b) < a)))

Fits-out : (size : ℕ → ℕ) (rs : List ℕ) (b : ℕ) → Fits size rs b → ¬ In b rs
Fits-out size rs b f i = elim (f.3 b i) [
  | inl h ↦ absurd (omega arith)
  | inr h ↦ absurd (omega arith)
]

-- The block `b` enters behind the first.
pub IsFreeList-link :
    (next next' size : ℕ → ℕ) (p b : ℕ) (ts : List ℕ)
    → IsFreeList next size (p ∷ ts)
    → Fits size (p ∷ ts) b
    → gap p b < gap p (next p)
    → next' p ≡ b
    → next' b ≡ next p
    → ((a : ℕ) → In a ts → next' a ≡ next a)
    → IsFreeList next' size (p ∷ b ∷ ts)
IsFreeList-link next next' size p b ts v f g first second rest = record {
  ring = (first, linked ts v.ring rest);
  distinct = (p_out, ((λ i. out (inr i)), v.distinct.1));
  bounds = bounded;
  apart = λ a x i j. disjoint a x (which a i) (which x j);
  order = λ a x i j. ordered a x (which a i) (which x j);
}
  where
    out : ¬ In b (p ∷ ts)
    out = Fits-out size (p ∷ ts) b f

    p_out : ¬ In p (b ∷ ts)
    p_out (inl e) = out (inl (sym e))
    p_out (inr i) = v.distinct.0 i

    which : (a : ℕ) → In a (p ∷ b ∷ ts) → (a ≡ b) ⊎ In a (p ∷ ts)
    which a (inl e) = inr (inl e)
    which a (inr (inl e)) = inl e
    which a (inr (inr i)) = inr (inr i)

    word : (a : ℕ) → In a (p ∷ ts) → a < 2 ^ 32
    word a i = below_word next size (p ∷ ts) a v i

    word_b : b < 2 ^ 32
    word_b = omega (arith, f.2, f.1)

    word_n : next p < 2 ^ 32
    word_n = word (next p) (Ring-In (p ∷ ts) next p v.ring (inl refl))

    linked :
        (us : List ℕ)
        → Link next p us p
        → ((a : ℕ) → In a us → next' a ≡ next a)
        → Link next' b us p
    linked [] r h = second ∙ r
    linked (u ∷ us) r h = (second ∙ r.0, Link-agree us next next' u p h r.1)

    bounded : (a : ℕ) → In a (p ∷ b ∷ ts) → (a ≢ 0) × (size a ≢ 0) × (advance a (size a) ≤ 2 ^ 32)
    bounded a i = elim (which a i) [
      | inl e ↦
          subst (λ y. (y ≢ 0) × (size y ≢ 0) × (advance y (size y) ≤ 2 ^ 32)) (sym e)
            (f.0, f.1, f.2)
      | inr j ↦ v.bounds a j
    ]

    disjoint :
        (a x : ℕ)
        → (a ≡ b) ⊎ In a (p ∷ ts)
        → (x ≡ b) ⊎ In x (p ∷ ts)
        → a < x
        → advance a (size a) < x
    disjoint a x (inl e) (inl k) l = absurd (omega arith)
    disjoint a x (inl e) (inr j) l =
        subst (λ y. advance y (size y) < x) (sym e)
          (elim (f.3 x j) [ inl h ↦ absurd (omega arith) | inr h ↦ h.1 ])
    disjoint a x (inr i) (inl k) l = elim (f.3 a i) [
      | inl h ↦ omega arith
      | inr h ↦ absurd (omega arith)
    ]
    disjoint a x (inr i) (inr j) l = v.apart a x i j l

    far : (x : ℕ) → (x ≡ b) ⊎ In x (p ∷ ts) → (x ≡ b) ⊎ (gap p (next p) ≤ gap p x)
    far x (inl e) = inl e
    far x (inr j) = inr (v.order p x (inl refl) j)

    of_p : (x : ℕ) → (x ≡ b) ⊎ In x (p ∷ ts) → gap p (next' p) ≤ gap p x
    of_p x j =
        subst (λ y. gap p y ≤ gap p x) (sym first)
          (elim (far x j) [
            | inl e ↦ subst (λ y. gap p b ≤ gap p y) (sym e) (omega arith)
            | inr h ↦ omega arith
          ])

    word_x : (x : ℕ) → (x ≡ b) ⊎ In x (p ∷ ts) → x < 2 ^ 32
    word_x x (inl e) = subst (λ y. y < 2 ^ 32) (sym e) word_b
    word_x x (inr j) = word x j

    of_rest : (a x : ℕ) → In a ts → (x ≡ b) ⊎ In x (p ∷ ts) → gap a (next a) ≤ gap a x
    of_rest a x i (inr j) = v.order a x (inr i) j
    of_rest a x i (inl e) =
        subst (λ y. gap a (next a) ≤ gap a y) (sym e)
          (gap-between a (next a) p (next p) b (word a (inr i))
            (word (next a) (Ring-In (p ∷ ts) next a v.ring (inr i))) (word p (inl refl)) word_n
            word_b (λ k. v.distinct.0 (subst (λ y. In y ts) k i))
            (λ k. out (inr (subst (λ y. In y ts) k i))) g (v.order p a (inl refl) (inr i))
            (v.order a p (inr i) (inl refl)))

    ordered :
        (a x : ℕ) → (a ≡ b) ⊎ In a (p ∷ ts) → (x ≡ b) ⊎ In x (p ∷ ts) → gap a (next' a) ≤ gap a x
    ordered a x (inl e) j =
        subst (λ y. gap y (next' y) ≤ gap y x) (sym e)
          (subst (λ y. gap b y ≤ gap b x) (sym second)
            (gap-after p (next p) b x (word p (inl refl)) word_n word_b (word_x x j) g (far x j)))
    ordered a x (inr (inl e)) j = subst (λ y. gap y (next' y) ≤ gap y x) (sym e) (of_p x j)
    ordered a x (inr (inr i)) j = subst (λ y. gap a y ≤ gap a x) (sym (rest a i)) (of_rest a x i j)

-- The block `b` of the ring gets another size, with which it still ends before the next one.
pub IsFreeList-resize :
    (next size size' : ℕ → ℕ) (rs : List ℕ) (b : ℕ)
    → IsFreeList next size rs
    → size' b ≢ 0
    → advance b (size' b) ≤ 2 ^ 32
    → ((x : ℕ) → In x rs → b < x → advance b (size' b) < x)
    → ((a : ℕ) → In a rs → a ≢ b → size' a ≡ size a)
    → IsFreeList next size' rs
IsFreeList-resize next size size' rs b v some_size within before others = record {
  ring = v.ring;
  distinct = v.distinct;
  bounds = λ a i. elim (ℕ_discrete a b) [
    | yes e ↦ (
      (v.bounds a i).0,
      subst (λ y. size' y ≢ 0) (sym e) some_size,
      subst (λ y. advance y (size' y) ≤ 2 ^ 32) (sym e) within,
    )
    | no n ↦
        subst (λ k. (a ≢ 0) × (k ≢ 0) × (advance a k ≤ 2 ^ 32)) (sym (others a i n)) (v.bounds a i)
  ];
  apart = λ a x i j l. elim (ℕ_discrete a b) [
    | yes e ↦ subst (λ y. advance y (size' y) < x) (sym e) (before x j (subst (λ y. y < x) e l))
    | no n ↦ subst (λ k. advance a k < x) (sym (others a i n)) (v.apart a x i j l)
  ];
  order = v.order;
}
