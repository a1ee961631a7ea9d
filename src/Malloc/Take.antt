-- ===== src/Malloc/Take.antt =====
-- What taking a block does to the free bytes.
use prpl_hypervisor.Base.{
  ℕ, ◌-◌, ◌≤◌, ◌<◌, ◌≡◌, ◌≢◌, refl, sym, ◌∙◌, subst, ◌⊎◌, inl, inr, arith, List, ◌∷◌, In,
}
use native.Mathlib.Decide.{ℕ_discrete, dec_lt}
use prpl_hypervisor.Machine.{store}
use prpl_hypervisor.Malloc.{advance}
use prpl_hypervisor.Malloc.Blocks.{IsFreeList, Covers, Within}
use prpl_hypervisor.Malloc.Insert.{IsFreeList-resize}

-- The free bytes before are those after and the `n` units from `q` on, which are not free any more.
abbrev pub IsTaken : (ℕ → ℕ) → List ℕ → (ℕ → ℕ) → List ℕ → ℕ → ℕ → Type 0
IsTaken size rs size' rs' q n =
    ((x : ℕ) → Covers size rs x → Covers size' rs' x ⊎ Within q n x)
    × ((x : ℕ) → Covers size' rs' x → Covers size rs x × (¬ Within q n x))
    × ((x : ℕ) → Within q n x → Covers size rs x)

-- `a` and `x` are apart whichever is below.
pub apart_bytes :
    (next size : ℕ → ℕ) (rs : List ℕ) (a b x : ℕ)
    → IsFreeList next size rs
    → In a rs
    → In b rs
    → a ≢ b
    → Within a (size a) x
    → ¬ Within b (size b) x
apart_bytes next size rs a b x v i j n w u = elim (dec_lt a b) [
  | yes l ↦ let h = v.apart a b i j l in absurd (omega arith)
  | no l ↦ let h = v.apart b a j i (omega arith) in absurd (omega arith)
]

pub IsTaken-unlink :
    (next size : ℕ → ℕ) (q p : ℕ) (us : List ℕ)
    → IsFreeList next size (q ∷ p ∷ us)
    → IsTaken size (q ∷ p ∷ us) size (q ∷ us) p (size p)
IsTaken-unlink next size q p us v = (before, after, λ x w. (p, inr (inl refl), w.0, w.1))
  where
    keep : (a : ℕ) → In a (q ∷ us) → In a (q ∷ p ∷ us)
    keep a (inl e) = inl e
    keep a (inr i) = inr (inr i)

    not_p : (a : ℕ) → In a (q ∷ us) → a ≢ p
    not_p a (inl e) k = v.distinct.0 (inl (sym e ∙ k))
    not_p a (inr i) k = v.distinct.1.0 (subst (λ y. In y us) k i)

    before : (x : ℕ) → Covers size (q ∷ p ∷ us) x → Covers size (q ∷ us) x ⊎ Within p (size p) x
    before x (a, inl e, l, u) = inl (a, inl e, l, u)
    before x (a, inr (inl e), l, u) = inr (subst (λ y. Within y (size y) x) e (l, u))
    before x (a, inr (inr i), l, u) = inl (a, inr i, l, u)

    after : (x : ℕ) → Covers size (q ∷ us) x → Covers size (q ∷ p ∷ us) x × (¬ Within p (size p) x)
    after x (a, i, l, u) = (
      (a, keep a i, l, u),
      apart_bytes next size (q ∷ p ∷ us) a p x v (keep a i) (inr (inl refl)) (not_p a i) (l, u),
    )

-- The sizes after the `n` last units of `p` are cut off.
abbrev pub cut : (ℕ → ℕ) → ℕ → ℕ → ℕ → ℕ
cut size p n = store (store size p (size p - n)) (advance p (size p - n)) n

module _ (next size : ℕ → ℕ) (rs : List ℕ) (p n : ℕ) (v : IsFreeList next size rs) (i : In p rs)
    (some_units : n ≢ 0) (less : n < size p) where
  cut_self : cut size p n p ≡ size p - n
  cut_self = ground arith

  pub cut_new : cut size p n (advance p (size p - n)) ≡ n
  cut_new = ground arith

  cut_other : (a : ℕ) → In a rs → a ≢ p → cut size p n a ≡ size a
  cut_other a j d = elim (dec_lt p a) [
    | yes l ↦
        let h = v.apart p a i j l in
        let k : a ≢ advance p (size p - n) = λ e. absurd (omega arith) in ground (arith, k, d)
    | no l ↦ ground (arith, d)
  ]

  pub IsFreeList-cut : IsFreeList next (cut size p n) rs
  IsFreeList-cut =
      IsFreeList-resize next size (cut size p n) rs p v (λ e. absurd (omega (arith, cut_self)))
        (let b = v.bounds p i in omega (arith, cut_self))
        (λ x j l. let h = v.apart p x i j l in omega (arith, cut_self)) cut_other

  pub IsTaken-cut : IsTaken size rs (cut size p n) rs (advance p (size p - n)) n
  IsTaken-cut = (
    λ x c. elim (ℕ_discrete c.0 p) [
      | yes e ↦
          let l : p ≤ x = subst (λ y. y ≤ x) e c.2 in
          let u : x < advance p (size p) = subst (λ y. x < advance y (size y)) e c.3 in
          elim (dec_lt x (advance p (size p - n))) [
            | yes k ↦ inl (p, i, l, subst (λ y. x < advance p y) (sym cut_self) k)
            | no k ↦ inr (omega arith, omega arith)
          ]
      | no d ↦ inl (c.0, c.1, c.2, subst (λ y. x < advance c.0 y) (sym (cut_other c.0 c.1 d)) c.3)
    ],
    λ x c. elim (ℕ_discrete c.0 p) [
      | yes e ↦
          let l : p ≤ x = subst (λ y. y ≤ x) e c.2 in
          let u : x < advance p (size p - n) =
            subst (λ y. x < advance p y) cut_self
              (subst (λ y. x < advance y (cut size p n y)) e c.3) in
          ((p, i, l, omega arith), λ w. absurd (omega arith))
      | no d ↦
          let u : x < advance c.0 (size c.0) =
            subst (λ y. x < advance c.0 y) (cut_other c.0 c.1 d) c.3 in
          (
            (c.0, c.1, c.2, u),
            λ w. apart_bytes next size rs c.0 p x v c.1 i d (c.2, u) (omega arith, omega arith),
          )
    ],
    λ x w. (p, i, omega arith, omega arith),
  )
