-- ===== src/Base/Bits.antt =====
-- `&` and `|` of words, by their binary digits.
use Prim.Native.Nat.{
  ℕ, zero, suc, ◌+◌, ◌*◌, ◌-◌, ◌/◌, ◌%◌, ◌^◌, ◌≤◌, ◌<◌, min, max, digits, bitwise, bit_and, bit_or,
  bit_and-bitwise, bit_or-bitwise,
}
use mathlib.Core.Path.{◌≡◌, refl, sym, ap, ◌∙◌}
use native.Mathlib.Nat.{pow-suc}
use native.Mathlib.Omega.{arith}

-- More fuel than the number changes nothing.
module _ (rest : ℕ → ℕ) (digit : ℕ → ℕ → ℕ) where
  digits_enough : (m n a b : ℕ) → a ≤ m → a ≤ n → digits rest digit m a b ≡ digits rest digit n a b
  digits_enough zero zero a b h k = refl
  digits_enough zero (suc n) zero b h k = refl
  digits_enough zero (suc n) (suc a) b h k = absurd (omega arith)
  digits_enough (suc m) zero zero b h k = refl
  digits_enough (suc m) zero (suc a) b h k = absurd (omega arith)
  digits_enough (suc m) (suc n) zero b h k = refl
  digits_enough (suc m) (suc n) (suc a) b h k =
      rw (digits_enough m n (suc a / 2) (b / 2) (omega arith) (omega arith))

  bitwise_last :
      (a b : ℕ)
      → bitwise rest digit (suc a) b
        ≡ bitwise rest digit (suc a / 2) (b / 2) * 2 + digit (suc a % 2) (b % 2)
  bitwise_last a b =
      omega (arith, digits_enough a (suc a / 2) (suc a / 2) (b / 2) (omega arith) (omega arith))

-- The last digit of a result, and the others.
pub bit_and_last : (a b : ℕ) → bit_and a b ≡ bit_and (a / 2) (b / 2) * 2 + min (a % 2) (b % 2)
bit_and_last zero b = simp bit_and-bitwise (omega arith)
bit_and_last (suc a) b = simp bit_and-bitwise (bitwise_last (λ y. 0) min a b)

pub bit_or_last : (a b : ℕ) → bit_or a b ≡ bit_or (a / 2) (b / 2) * 2 + max (a % 2) (b % 2)
bit_or_last zero b = simp bit_or-bitwise (omega arith)
bit_or_last (suc a) b = simp bit_or-bitwise (bitwise_last (λ y. y) max a b)

and_zero_upto : (n a : ℕ) → a ≤ n → bit_and a 0 ≡ 0
and_zero_upto n zero h = refl
and_zero_upto zero (suc a) h = absurd (omega arith)
and_zero_upto (suc n) (suc a) h =
    omega (arith, bit_and_last (suc a) 0, and_zero_upto n (suc a / 2) (omega arith))

pub bit_and-zero : (a : ℕ) → bit_and a 0 ≡ 0
bit_and-zero a = and_zero_upto a a (omega arith)

-- `(x | b) & b` is `b`.
pub bit_and-bit_or : (w x b : ℕ) → b < 2 ^ w → bit_and (bit_or x b) b ≡ b
bit_and-bit_or zero x b h = let e : b ≡ 0 = omega arith in rw e (bit_and-zero (bit_or x 0))
bit_and-bit_or (suc w) x b h = ground (
  arith,
  bit_and_last (bit_or x b) b,
  bit_or_last x b,
  pow-suc 2 w,
  bit_and-bit_or w (x / 2) (b / 2) (omega (arith, pow-suc 2 w)),
)

-- `(x & ~b) & b` is zero.
pub bit_and-bit_and_complement : (w x b : ℕ) → b < 2 ^ w → bit_and (bit_and x (2 ^ w - 1 - b)) b ≡ 0
bit_and-bit_and_complement zero x b h =
    let e : b ≡ 0 = omega arith in rw e (bit_and-zero (bit_and x 0))
bit_and-bit_and_complement (suc w) x b h = ground (
  arith,
  bit_and_last (bit_and x (2 ^ suc w - 1 - b)) b,
  bit_and_last x (2 ^ suc w - 1 - b),
  pow-suc 2 w,
  bit_and-bit_and_complement w (x / 2) (b / 2) (omega (arith, pow-suc 2 w)),
)

-- The digits that `(x & ~m) | v` has where `m` has ones are those of `v`, if `v` has no others.
pub bit_and-field :
    (w x m v : ℕ)
    → m < 2 ^ w
    → bit_and v m ≡ v
    → bit_and (bit_or (bit_and x (2 ^ w - 1 - m)) v) m ≡ v
bit_and-field zero x m v h e =
    let z : m ≡ 0 = omega arith in
    rw z (bit_and-zero (bit_or (bit_and x 0) v) ∙ sym (bit_and-zero v) ∙ ap (bit_and v) (sym z) ∙ e)
bit_and-field (suc w) x m v h e =
    let halves : bit_and (v / 2) (m / 2) ≡ v / 2 = omega (arith, e, bit_and_last v m) in
    let last : min (v % 2) (m % 2) ≡ v % 2 = omega (arith, e, bit_and_last v m) in
    let before : (2 ^ suc w - 1 - m) / 2 ≡ 2 ^ w - 1 - m / 2 = omega (arith, pow-suc 2 w) in
    let small : m / 2 < 2 ^ w = omega (arith, pow-suc 2 w) in
    ground (
      arith,
      bit_and_last (bit_or (bit_and x (2 ^ suc w - 1 - m)) v) m,
      bit_or_last (bit_and x (2 ^ suc w - 1 - m)) v,
      bit_and_last x (2 ^ suc w - 1 - m),
      pow-suc 2 w,
      last,
      before,
      bit_and-field w (x / 2) (m / 2) (v / 2) small halves,
    )
