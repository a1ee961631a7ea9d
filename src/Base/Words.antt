-- ===== src/Base/Words.antt =====
-- Machine words of 32 bits. A `uint32_t` and an `int32_t` are both the number of their bit
-- pattern, below 2 ^ 32; -n is the pattern 2 ^ 32 - n. Pointers are words too, and NULL is 0.
use Prim.Native.Nat.{ℕ, ◌+◌, ◌-◌, ◌%◌, ◌^◌, ◌<◌}
use mathlib.Core.Path.{◌≡◌}
use mathlib.Core.Bool.{Bool}
use native.Mathlib.Omega.{arith}
use prpl_hypervisor.Base.Tests.{ltb, leb, if◌then◌else◌}

abbrev pub word : ℕ
word = 2 ^ 32

abbrev pub add32 : ℕ → ℕ → ℕ
add32 a b = (a + b) % 2 ^ 32

abbrev pub sub32 : ℕ → ℕ → ℕ
sub32 a b = (a + 2 ^ 32 - b) % 2 ^ 32

-- The pattern of -n.
abbrev pub negative : ℕ → ℕ
negative n = (2 ^ 32 - n) % 2 ^ 32

-- `a <= b` and `a < b` on `int32_t`: the sign bit is flipped, and patterns are compared.
abbrev pub le_int : ℕ → ℕ → Bool
le_int a b = leb ((a + 2 ^ 31) % 2 ^ 32) ((b + 2 ^ 31) % 2 ^ 32)

abbrev pub lt_int : ℕ → ℕ → Bool
lt_int a b = ltb ((a + 2 ^ 31) % 2 ^ 32) ((b + 2 ^ 31) % 2 ^ 32)

abbrev pub magnitude : ℕ → ℕ
magnitude a = if ltb a (2 ^ 31) then a else 2 ^ 32 - a

-- `a % b` on `int32_t` takes the sign of `a`.
abbrev pub rem_int : ℕ → ℕ → ℕ
rem_int a b =
    if ltb a (2 ^ 31) then magnitude a % magnitude b else negative (magnitude a % magnitude b)

pub rem_int-small : (a b : ℕ) → a < 2 ^ 31 → b < 2 ^ 31 → rem_int a b ≡ a % b
rem_int-small a b ha hb = ground arith

pub le_int-small : (a b : ℕ) → a < 2 ^ 31 → b < 2 ^ 31 → le_int a b ≡ leb a b
le_int-small a b ha hb = ground arith
