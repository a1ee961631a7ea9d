-- ===== src/Libc/Digits.antt =====
-- The digits that `itoa` writes, the least significant first.
use prpl_hypervisor.Base.{
  ℕ, zero, suc, ◌+◌, ◌-◌, ◌*◌, ◌/◌, ◌%◌, ◌^◌, ◌≤◌, ◌<◌, ◌≡◌, ◌≢◌, refl, ap, ap₂, ◌∙◌, ◌⊎◌, inl,
  arith, ==-ne, some,
}
use native.Mathlib.Decide.{ℕ_discrete}
use native.Mathlib.Nat.{pow-suc, div-lt_iff_lt-mul, mul-le-mul_left, div-add-mod', mod-lt, zero-div}
use prpl_hypervisor.Machine.{store}
use prpl_hypervisor.Libc.{put_digits}

-- The digits from `q` on are those of `h`, the least significant first, and not more than needed.
abbrev pub value_up : (ℕ → ℕ) → ℕ → ℕ → ℕ → ℕ
value_up m base q zero = 0
value_up m base q (suc n) = value_up m base (q + 1) n * base + (m q - 48)

-- What `put_digits` leaves: `n` characters of digits at `q` with the value `h`.
pub record PutsDigits (m : ℕ → ℕ) (q h base n : ℕ) (m' : ℕ → ℕ) : Type 0 where
  pub value : value_up m' base q n ≡ h
  pub digits : (i : ℕ) → i < n → (48 ≤ m' (q + i)) × (m' (q + i) < 48 + base)
  pub kept : (a : ℕ) → (a < q) ⊎ (q + n ≤ a) → m' a ≡ m a

-- A digit that is left of a number below 2^(k + 1) is below 2^k.
pub half : (h base k : ℕ) → 2 ≤ base → h < 2 ^ suc k → h / base < 2 ^ k
half h base k b l =
    (div-lt_iff_lt-mul (omega arith)).1 (omega (arith, pow-suc 2 k, mul-le-mul_left (2 ^ k) b))

one_digit :
    (m : ℕ → ℕ) (q h base : ℕ)
    → 2 ≤ base
    → h / base ≡ 0
    → PutsDigits m q h base 1 (store m q (48 + h % base))
one_digit m q h base b z = record {
  value = ground (arith, div-add-mod' h base);
  digits = λ i l.
      let r : h % base < base = mod-lt h (omega arith) in
      let e : i ≡ 0 = omega arith in rw e (ground arith);
  kept = λ a out. ground arith;
}

more_digits :
    (m : ℕ → ℕ) (q h base n : ℕ) (m' : ℕ → ℕ)
    → 2 ≤ base
    → PutsDigits (store m q (48 + h % base)) (q + 1) (h / base) base n m'
    → PutsDigits m q h base (suc n) m'
more_digits m q h base n m' b r = record {
  value = ap₂ (λ x y. x * base + (y - 48)) r.value here ∙ omega (arith, div-add-mod' h base);
  digits = within;
  kept = λ a out. r.kept a (ground arith) ∙ away a (ground arith);
}
  where
    away : (a : ℕ) → a ≢ q → store m q (48 + h % base) a ≡ m a
    away a k = ground arith

    stored : store m q (48 + h % base) q ≡ 48 + h % base
    stored = ground arith

    here : m' q ≡ 48 + h % base
    here = r.kept q (inl (omega arith)) ∙ stored

    within : (i : ℕ) → i < suc n → (48 ≤ m' (q + i)) × (m' (q + i) < 48 + base)
    within zero l =
        let small : h % base < base = mod-lt h (omega arith) in
        let same : m' (q + 0) ≡ 48 + h % base = ap m' (omega arith) ∙ here in rw same (omega arith)
    within (suc i) l =
        let same : q + suc i ≡ q + 1 + i = omega arith in rw same (r.digits i (omega arith))

pub put_digits_lem :
    (k fuel : ℕ) (m : ℕ → ℕ) (q h base : ℕ)
    → 2 ≤ base
    → h < 2 ^ k
    → k < fuel
    → (m' : ℕ → ℕ) × (n : ℕ) × (put_digits fuel m q h base ≡ some (m', q + n))
      × (0 < n)
      × (n ≤ suc k)
      × PutsDigits m q h base n m'
unfolding put_digits
put_digits_lem zero zero m q h base b l f = absurd (omega arith)
put_digits_lem zero (suc fuel) m q h base b l f =
    let z : h ≡ 0 = omega arith in
    let none_left : h / base ≡ 0 = ap (λ x. x / base) z ∙ zero-div base in
    (
      store m q (48 + h % base),
      1,
      rw none_left refl,
      omega arith,
      omega arith,
      one_digit m q h base b none_left,
    )
put_digits_lem (suc k) zero m q h base b l f = absurd (omega arith)
put_digits_lem (suc k) (suc fuel) m q h base b l f = elim (ℕ_discrete (h / base) 0) [
  | yes z ↦
      (store m q (48 + h % base), 1, rw z refl, omega arith, omega arith, one_digit m q h base b z)
  | no n ↦
      let (m', n', e, pos, le, r) =
        put_digits_lem k fuel (store m q (48 + h % base)) (q + 1) (h / base) base b
          (half h base k b l) (omega arith) in
      (
        m',
        suc n',
        rw (==-ne (h / base) 0 n) (e ∙ ap (λ x. some (m', x)) (omega arith)),
        omega arith,
        omega arith,
        more_digits m q h base n' m' b r,
      )
]
