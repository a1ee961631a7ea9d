-- ===== src/Libc/Copy.antt =====
-- `memset` and `memcpy` against what they leave at each address.
use prpl_hypervisor.Base.{
  ℕ, zero, suc, ◌+◌, ◌-◌, ◌*◌, ◌/◌, ◌%◌, ◌^◌, ◌≤◌, ◌<◌, ◌≡◌, refl, sym, ap, ◌∙◌, fun_ext, ap₂,
  lt→ltb, ==-ne, ◌≢◌, ◌⊎◌, inl, inr, arith, bit_and, bit_or, bit_and_last, bit_or_last,
  bit_and-zero, leb, ltb, ◌&&◌, if◌then◌else◌, Bool,
}
use native.Mathlib.Decide.{ℕ_discrete}
use prpl_hypervisor.Machine.{store}
use prpl_hypervisor.Libc.{fill, memset, copy_bytes, move_word, copy_words, memcpy}

abbrev pub within : ℕ → ℕ → ℕ → Bool
within a dst n = leb dst a && ltb a (dst + n)

fill_lem :
    (n : ℕ) (m : ℕ → ℕ) (dst c a : ℕ)
    → fill m dst c n a ≡ (if within a dst n then c % 2 ^ 8 else m a)
unfolding fill
fill_lem zero m dst c a = ground arith
fill_lem (suc n) m dst c a = ground (arith, fill_lem n (store m dst (c % 2 ^ 8)) (dst + 1) c a)

copy_bytes_lem :
    (n : ℕ) (m : ℕ → ℕ) (dst src a : ℕ)
    → (dst ≤ src) ⊎ (src + n ≤ dst)
    → copy_bytes m dst src n a ≡ (if within a dst n then m (src + (a - dst)) else m a)
unfolding copy_bytes
copy_bytes_lem zero m dst src a apart = ground arith
copy_bytes_lem (suc n) m dst src a apart = ground (
  arith,
  copy_bytes_lem n (store m dst (m src)) (dst + 1) (src + 1) a
      (elim apart [ inl before ↦ inl (omega arith) | inr after ↦ inr (omega arith) ]),
)

three_mod : (x : ℕ) → bit_and x 3 ≡ x % 4
three_mod x = omega (arith, bit_and_last x 3, bit_and_last (x / 2) 1, bit_and-zero (x / 2 / 2))

bit_or_mod : (a b : ℕ) → bit_or a b % 4 ≡ 0 → (a % 4 ≡ 0) × (b % 4 ≡ 0)
bit_or_mod a b h = ground (arith, bit_or_last a b, bit_or_last (a / 2) (b / 2))

pub aligned :
    (dst src bytes : ℕ)
    → bit_and (bit_or (bit_or dst src) bytes) 3 ≡ 0
    → (dst % 4 ≡ 0) × (src % 4 ≡ 0) × (bytes % 4 ≡ 0)
aligned dst src bytes h =
    let outer =
      bit_or_mod (bit_or dst src) bytes (sym (three_mod (bit_or (bit_or dst src) bytes)) ∙ h) in
    let inner = bit_or_mod dst src outer.0 in (inner.0, inner.1, outer.1)

-- A word at a time or a byte at a time is the same for aligned addresses, even if the two overlap.
move_word-copy_bytes :
    (m : ℕ → ℕ) (dst src : ℕ)
    → dst % 4 ≡ 0
    → src % 4 ≡ 0
    → move_word m dst src ≡ copy_bytes m dst src 4
unfolding move_word copy_bytes
move_word-copy_bytes m dst src d s = fun_ext (λ a. ground arith)

copy_bytes_four :
    (n : ℕ) (m : ℕ → ℕ) (dst src : ℕ)
    → copy_bytes (copy_bytes m dst src 4) (dst + 4) (src + 4) n
      ≡ copy_bytes m dst src (suc (suc (suc (suc n))))
unfolding copy_bytes
copy_bytes_four n m dst src =
    ap₂ (λ d s. copy_bytes (copy_bytes m dst src 4) d s n) (four dst) (four src)
  where
    four : (p : ℕ) → p + 4 ≡ p + 1 + 1 + 1 + 1
    four p = omega arith

four_more : (n : ℕ) → suc (suc (suc (suc (n * 4)))) ≡ suc n * 4
four_more n = omega arith

copy_words-copy_bytes :
    (n : ℕ) (m : ℕ → ℕ) (dst src : ℕ)
    → dst % 4 ≡ 0
    → src % 4 ≡ 0
    → copy_words m dst src n ≡ copy_bytes m dst src (n * 4)
unfolding copy_words copy_bytes
copy_words-copy_bytes zero m dst src d s = refl
copy_words-copy_bytes (suc n) m dst src d s =
    copy_words-copy_bytes n (move_word m dst src) (dst + 4) (src + 4) (omega arith) (omega arith)
    ∙ ap (λ k. copy_bytes k (dst + 4) (src + 4) (n * 4)) (move_word-copy_bytes m dst src d s)
    ∙ copy_bytes_four (n * 4) m dst src
    ∙ ap (copy_bytes m dst src) (four_more n)

whole : (n : ℕ) → n % 4 ≡ 0 → n / 4 * 4 ≡ n
whole n h = omega arith

memcpy_words :
    (m : ℕ → ℕ) (dst src bytes : ℕ)
    → bytes < 2 ^ 31
    → bit_and (bit_or (bit_or dst src) bytes) 3 ≡ 0
    → (memcpy m dst src bytes).0 ≡ copy_words m dst src (bytes / 4)
unfolding memcpy
memcpy_words m dst src bytes h z = rw (z, lt→ltb (bytes / 4) (2 ^ 31) (omega arith)) refl

memcpy_bytes :
    (m : ℕ → ℕ) (dst src bytes : ℕ)
    → bytes < 2 ^ 31
    → bit_and (bit_or (bit_or dst src) bytes) 3 ≢ 0
    → (memcpy m dst src bytes).0 ≡ copy_bytes m dst src bytes
unfolding memcpy
memcpy_bytes m dst src bytes h n =
    rw (==-ne (bit_and (bit_or (bit_or dst src) bytes) 3) 0 n, lt→ltb bytes (2 ^ 31) h) refl

memcpy-copy_bytes :
    (m : ℕ → ℕ) (dst src bytes : ℕ)
    → bytes < 2 ^ 31
    → (memcpy m dst src bytes).0 ≡ copy_bytes m dst src bytes
memcpy-copy_bytes m dst src bytes h =
    elim (ℕ_discrete (bit_and (bit_or (bit_or dst src) bytes) 3) 0) [
      | yes z ↦
          memcpy_words m dst src bytes h z
          ∙ copy_words-copy_bytes (bytes / 4) m dst src (aligned dst src bytes z).0
              (aligned dst src bytes z).1
          ∙ ap (copy_bytes m dst src) (whole bytes (aligned dst src bytes z).2)
      | no n ↦ memcpy_bytes m dst src bytes h n
    ]

-- For fewer than 2^31 bytes, of which the destination does not begin inside the source behind its
-- first byte, memcpy returns the destination; it holds the bytes that the source had, and no other byte
-- changes, whether words are copied or bytes.
pub memcpy_lem :
    (m : ℕ → ℕ) (dst src bytes a : ℕ)
    → bytes < 2 ^ 31
    → (dst ≤ src) ⊎ (src + bytes ≤ dst)
    → ((memcpy m dst src bytes).0 a ≡ (if within a dst bytes then m (src + (a - dst)) else m a))
      × ((memcpy m dst src bytes).1 ≡ dst)
unfolding memcpy
memcpy_lem m dst src bytes a h apart = (
  ap (λ k. k a) (memcpy-copy_bytes m dst src bytes h) ∙ copy_bytes_lem bytes m dst src a apart,
  refl,
)

-- For fewer than 2^31 bytes memset returns the destination; it holds the low byte of the character
-- throughout, and no other byte changes.
pub memset_lem :
    (m : ℕ → ℕ) (dst c bytes a : ℕ)
    → bytes < 2 ^ 31
    → ((memset m dst c bytes).0 a ≡ (if within a dst bytes then c % 2 ^ 8 else m a))
      × ((memset m dst c bytes).1 ≡ dst)
unfolding memset
memset_lem m dst c bytes a h = (
  ap (λ n. fill m dst c n a) (ap (λ b. if b then bytes else 0) (lt→ltb bytes (2 ^ 31) h))
      ∙ fill_lem bytes m dst c a,
  refl,
)
