-- ===== src/Libc/Reverse.antt =====
-- The swaps of `itoa` reverse its characters.
use prpl_hypervisor.Base.{
  ℕ, zero, suc, ◌+◌, ◌-◌, ◌≤◌, ◌<◌, ◌≡◌, ◌≢◌, refl, ap, Bool-cases, leb→le, ◌∙◌, ◌⊎◌, inl, inr,
  arith, leb, some,
}
use native.Mathlib.Decide.{ℕ_discrete}
use prpl_hypervisor.Machine.{store}
use prpl_hypervisor.Libc.{swap_ends}

-- Swapping the ends reverses the characters from `p` up to `q`, changed.
pub record Reverses (change : ℕ → ℕ) (m : ℕ → ℕ) (p q : ℕ) (m' : ℕ → ℕ) : Type 0 where
  pub inside : (a : ℕ) → p ≤ a → a < q → m' a ≡ change (m (p + q - 1 - a))
  pub outside : (a : ℕ) → (a < p) ⊎ (q ≤ a) → m' a ≡ m a

swapped : (ℕ → ℕ) → (ℕ → ℕ) → ℕ → ℕ → ℕ → ℕ
swapped change m p q = store (store m p (change (m (q - 1)))) (q - 1) (change (m p))

-- What the swap leaves at the two ends, between them and elsewhere.
swapped_first :
    (change : ℕ → ℕ) (m : ℕ → ℕ) (p q a : ℕ)
    → a ≡ p
    → swapped change m p q a ≡ change (m (p + q - 1 - a))
unfolding swapped
swapped_first change m p q a e =
    let i : p + q - 1 - a ≡ q - 1 = omega arith in rw (i, e) (ground arith)

swapped_last :
    (change : ℕ → ℕ) (m : ℕ → ℕ) (p q a : ℕ)
    → p < q
    → a ≡ q - 1
    → swapped change m p q a ≡ change (m (p + q - 1 - a))
unfolding swapped
swapped_last change m p q a l e =
    let i : p + q - 1 - a ≡ p = omega arith in rw (i, e) (ground arith)

swapped_middle :
    (change : ℕ → ℕ) (m : ℕ → ℕ) (p q a : ℕ)
    → p < a
    → a < q - 1
    → swapped change m p q (p + 1 + (q - 1) - 1 - a) ≡ m (p + q - 1 - a)
unfolding swapped
swapped_middle change m p q a u v =
    let i : p + 1 + (q - 1) - 1 - a ≡ p + q - 1 - a = omega arith in rw i (ground arith)

swapped_away :
    (change : ℕ → ℕ) (m : ℕ → ℕ) (p q a : ℕ) → a ≢ p → a ≢ q - 1 → swapped change m p q a ≡ m a
unfolding swapped
swapped_away change m p q a u v = ground arith

swapped-Reverses :
    (change : ℕ → ℕ) (m : ℕ → ℕ) (p q : ℕ) (m' : ℕ → ℕ)
    → p < q
    → Reverses change (swapped change m p q) (p + 1) (q - 1) m'
    → Reverses change m p q m'
swapped-Reverses change m p q m' l r = record {
  inside = λ a u v. elim (ℕ_discrete a p) [
    | yes e ↦ r.outside a (inl (omega arith)) ∙ swapped_first change m p q a e
    | no n ↦ elim (ℕ_discrete a (q - 1)) [
      | yes e ↦ r.outside a (inr (omega arith)) ∙ swapped_last change m p q a l e
      | no k ↦
          r.inside a (omega arith) (omega arith)
          ∙ ap change (swapped_middle change m p q a (omega arith) (omega arith))
    ]
  ];
  outside = λ a out.
      r.outside a (ground arith) ∙ swapped_away change m p q a (ground arith) (ground arith);
}

pub swap_ends_lem :
    (change : ℕ → ℕ) (fuel : ℕ) (m : ℕ → ℕ) (p q : ℕ)
    → 0 < p
    → p ≤ q + 1
    → q + 1 < p + fuel
    → (m' : ℕ → ℕ) × (swap_ends change fuel m p q ≡ some m') × Reverses change m p q m'
unfolding swap_ends swapped
swap_ends_lem change zero m p q pos l f = absurd (omega arith)
swap_ends_lem change (suc fuel) m p q pos l f = elim (Bool-cases (leb p (q - 1))) [
  | inl t ↦
      let in_order : p ≤ q - 1 = leb→le p (q - 1) t in
      let (m', e, r) =
        swap_ends_lem change fuel (swapped change m p q) (p + 1) (q - 1) (omega arith) (omega arith)
          (omega arith) in
      (m', rw t e, swapped-Reverses change m p q m' (omega arith) r)
  | inr n ↦ (
    m,
    rw n refl,
    record { inside = λ a u v. absurd (ground (arith, n)); outside = λ a out. refl },
  )
]
