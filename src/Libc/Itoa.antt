-- ===== src/Libc/Itoa.antt =====
-- The number that `itoa` writes, read back.
use prpl_hypervisor.Base.{
  ℕ, zero, suc, ◌+◌, ◌-◌, ◌*◌, ◌^◌, ◌≤◌, ◌<◌, ◌≡◌, ◌≢◌, refl, sym, ap, ap₂, Bool-cases, ◌∙◌, subst,
  ◌⊎◌, inl, inr, arith, ltb, ltb→lt, lt→ltb, ltb-ge, false, ==-ne, if◌then◌else◌, some,
}
use prpl_hypervisor.Machine.{store}
use prpl_hypervisor.Libc.{put_digits, letter, itoa, finish}
use prpl_hypervisor.Libc.Digits.{value_up, PutsDigits, put_digits_lem}
use prpl_hypervisor.Libc.Reverse.{Reverses, swap_ends_lem}

-- Characters from `p` on, the most significant first, read by `digit`.
abbrev pub value_of : (ℕ → ℕ) → (ℕ → ℕ) → ℕ → ℕ → ℕ → ℕ
value_of digit m base p zero = 0
value_of digit m base p (suc n) = value_of digit m base p n * base + digit (m (p + n))

-- Characters that `digit` reads as the reversed digits have their value.
value_of-value_up :
    (digit : ℕ → ℕ) (n : ℕ) (m m' : ℕ → ℕ) (base p q : ℕ)
    → ((j : ℕ) → j < n → digit (m' (p + j)) ≡ m (q + (n - 1 - j)) - 48)
    → value_of digit m' base p n ≡ value_up m base q n
value_of-value_up digit zero m m' base p q e = refl
value_of-value_up digit (suc n) m m' base p q e =
    ap₂ (λ x y. x * base + y)
      (value_of-value_up digit n m m' base p (q + 1) (λ j l.
        let same : q + (suc n - 1 - j) ≡ q + 1 + (n - 1 - j) = omega arith in
        e j (omega arith) ∙ ap (λ k. m k - 48) same))
      (let last : q + (suc n - 1 - n) ≡ q = omega arith in
        e n (omega arith) ∙ ap (λ k. m k - 48) last)

-- How a character is read as a digit, and the characters that are digits.
abbrev pub digit_value : ℕ → ℕ
digit_value c = if ltb 57 c then c - 87 else c - 48

abbrev pub IsDigit : ℕ → ℕ → Type 0
IsDigit base c = ((48 ≤ c) × (c ≤ 57) × (c < 48 + base)) ⊎ ((97 ≤ c) × (c < 87 + base))

-- Memory holds a number in a base: `n` digits from `p` on, and a zero behind them.
pub record HoldsNumber (base h p n : ℕ) (m : ℕ → ℕ) : Type 0 where
  pub value : value_of digit_value m base p n ≡ h
  pub digits : (i : ℕ) → i < n → IsDigit base (m (p + i))
  pub ends : m (p + n) ≡ 0

-- A change of characters that makes digits of what `put_digits` wrote.
abbrev pub Prints : ℕ → (ℕ → ℕ) → Type 0
Prints base change =
    (c : ℕ) → 48 ≤ c → c < 48 + base → (digit_value (change c) ≡ c - 48) × IsDigit base (change c)

letter-Prints : (base : ℕ) → Prints base letter
letter-Prints base c u v = ground arith

same-Prints : (base : ℕ) → base ≤ 10 → Prints base (λ c. c)
same-Prints base b c u v = ground arith

reversed-HoldsNumber :
    (base h p n : ℕ) (change : ℕ → ℕ) (m m1 m' : ℕ → ℕ)
    → Prints base change
    → PutsDigits m p h base n m1
    → Reverses change (store m1 (p + n) 0) p (p + n) m'
    → HoldsNumber base h p n m' × ((a : ℕ) → (a < p) ⊎ (p + n < a) → m' a ≡ m a)
reversed-HoldsNumber base h p n change m m1 m' pr d r = (
  record {
    value =
        value_of-value_up digit_value n m1 m' base p p
          (λ j l. ap digit_value (at j l) ∙ (printed j l).0)
        ∙ d.value;
    digits = λ i l. subst (IsDigit base) (sym (at i l)) (printed i l).1;
    ends = r.outside (p + n) (inr (omega arith)) ∙ stored;
  },
  λ a out. r.outside a (ground arith) ∙ (away a (ground arith) ∙ d.kept a (ground arith)),
)
  where
    stored : store m1 (p + n) 0 (p + n) ≡ 0
    stored = ground arith

    away : (a : ℕ) → a ≢ p + n → store m1 (p + n) 0 a ≡ m1 a
    away a k = ground arith

    at : (j : ℕ) → j < n → m' (p + j) ≡ change (m1 (p + (n - 1 - j)))
    at j l =
        let same : p + (p + n) - 1 - (p + j) ≡ p + (n - 1 - j) = omega arith in
        r.inside (p + j) (omega arith) (omega arith)
        ∙ ap change (ap (store m1 (p + n) 0) same ∙ away (p + (n - 1 - j)) (λ e. omega arith))

    printed :
        (j : ℕ)
        → j < n
        → (digit_value (change (m1 (p + (n - 1 - j)))) ≡ m1 (p + (n - 1 - j)) - 48)
          × IsDigit base (change (m1 (p + (n - 1 - j))))
    printed j l =
        let (low, high) = d.digits (n - 1 - j) (omega arith) in pr (m1 (p + (n - 1 - j))) low high

-- The number is written at `p`, and all else is as it was.
abbrev pub Writes : ℕ → ℕ → ℕ → (ℕ → ℕ) → (ℕ → ℕ) → Type 0
Writes base h p m m' =
    (n : ℕ) × (0 < n) × (HoldsNumber base h p n m' × ((a : ℕ) → (a < p) ⊎ (p + n < a) → m' a ≡ m a))

-- One branch of itoa: the digits of `h` at `p`, then the zero and the swaps.
finish_lem :
    (fuel : ℕ) (change : ℕ → ℕ) (m : ℕ → ℕ) (s p h base : ℕ)
    → Prints base change
    → 35 ≤ fuel
    → 0 < p
    → 2 ≤ base
    → h < 2 ^ 32
    → (m' : ℕ → ℕ) × (finish fuel change s p (put_digits fuel m p h base) ≡ some (m', s))
      × Writes base h p m m'
unfolding finish
finish_lem fuel change m s p h base pr f pos b l =
    let (m1, n, e, some_digit, le, d) = put_digits_lem 32 fuel m p h base b l (omega arith) in
    let (m', swaps, r) =
      swap_ends_lem change fuel (store m1 (p + n) 0) p (p + n) pos (omega arith) (omega arith) in
    (
      m',
      rw (e, swaps, finish) refl,
      (n, some_digit, reversed-HoldsNumber base h p n change m m1 m' pr d r),
    )

-- What itoa prints for an `int`: the sign, if any, and the number in the base.
abbrev pub IsPrinted : ℕ → ℕ → ℕ → (ℕ → ℕ) → (ℕ → ℕ) → Type 0
IsPrinted base i s m m' =
    ((base ≢ 16) × (2 ^ 31 ≤ i) × Writes base (2 ^ 32 - i) (s + 1) (store m s 45) m')
    ⊎ (((base ≡ 16) ⊎ (i < 2 ^ 31)) × Writes base i s m m')

itoa_letters :
    (fuel : ℕ) (m : ℕ → ℕ) (i s base : ℕ)
    → base ≡ 16
    → itoa fuel m i s base ≡ finish fuel letter s s (put_digits fuel m s i base)
unfolding itoa
itoa_letters fuel m i s base b = rw b refl

itoa_plain :
    (fuel : ℕ) (m : ℕ → ℕ) (i s base : ℕ)
    → base ≢ 16
    → i < 2 ^ 31
    → itoa fuel m i s base ≡ finish fuel (λ c. c) s s (put_digits fuel m s i base)
unfolding itoa
itoa_plain fuel m i s base b l = rw (==-ne base 16 b, lt→ltb i (2 ^ 31) l) refl

itoa_negative :
    (fuel : ℕ) (m : ℕ → ℕ) (i s base : ℕ)
    → base ≢ 16
    → ltb i (2 ^ 31) ≡ false
    → itoa fuel m i s base
      ≡ finish fuel (λ c. c) s (s + 1) (put_digits fuel (store m s 45) (s + 1) (2 ^ 32 - i) base)
unfolding itoa
itoa_negative fuel m i s base b l = rw (==-ne base 16 b, l) refl

-- With fuel 35 or more itoa of an int returns for the bases 2 to 10 and 16: it writes a minus sign and
-- the absolute value if the int is negative and the base is not 16, and else the int's pattern, as a
-- string of digits that has this value when it is read, and changes no byte outside that string.
pub itoa_lem :
    (fuel : ℕ) (m : ℕ → ℕ) (i s base : ℕ)
    → 35 ≤ fuel
    → 0 < s
    → i < 2 ^ 32
    → ((2 ≤ base) × (base ≤ 10)) ⊎ (base ≡ 16)
    → (m' : ℕ → ℕ) × (itoa fuel m i s base ≡ some (m', s)) × IsPrinted base i s m m'
itoa_lem fuel m i s base f pos l (inl b) =
    let b16 : base ≢ 16 = λ e. omega arith in
    let prints : Prints base (λ c. c) = same-Prints base b.1 in
    elim (Bool-cases (ltb i (2 ^ 31))) [
      | inl t ↦
          let (m', e, w) = finish_lem fuel (λ c. c) m s s i base prints f pos b.0 l in
          let small : i < 2 ^ 31 = ltb→lt i (2 ^ 31) t in
          (m', itoa_plain fuel m i s base b16 small ∙ e, inr (inr small, w))
      | inr t ↦
          let large : 2 ^ 31 ≤ i = ltb-ge i (2 ^ 31) t in
          let (m', e, w) =
            finish_lem fuel (λ c. c) (store m s 45) s (s + 1) (2 ^ 32 - i) base prints f
              (omega arith) b.0 (omega arith) in
          (m', itoa_negative fuel m i s base b16 t ∙ e, inl (b16, large, w))
    ]
itoa_lem fuel m i s base f pos l (inr b) =
    let (m', e, w) =
      finish_lem fuel letter m s s i base (letter-Prints base) f pos (omega arith) l in
    (m', itoa_letters fuel m i s base b ∙ e, inr (inl b, w))
