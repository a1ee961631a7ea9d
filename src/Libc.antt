-- ===== src/Libc.antt =====
-- sys/lib/libc.c. Memory is a function from addresses to bytes. An object ends below 2^32, so that its
-- pointers do not wrap.
pub mod Copy
pub mod Strings
pub mod Reverse
pub mod Digits
pub mod Itoa
pub mod Print
pub mod Printed
pub mod Format
pub mod Formatted
mod Tests
use prpl_hypervisor.Base.{
  ℕ, zero, suc, ◌+◌, ◌-◌, ◌/◌, ◌%◌, ◌^◌, bit_and, bit_or, ltb, leb, ◌==◌, ◌&&◌, not, if◌then◌else◌,
  Option, none, some, List, [], ◌∷◌, negative, add32,
}
use prpl_hypervisor.Machine.{store}
use prpl_hypervisor.Tlb.{shl}

-- The rounds of `while((int)bytes-- > 0)`.
abbrev pub rounds : ℕ → ℕ
rounds bytes = if ltb bytes (2 ^ 31) then bytes else 0

-- The loop of `memset`.
unfoldable pub fill : (ℕ → ℕ) → ℕ → ℕ → ℕ → ℕ → ℕ
fill m dst c zero = m
fill m dst c (suc left) = fill (store m dst (c % 2 ^ 8)) (dst + 1) c left

-- `memset`: the memory, and the result.
unfoldable pub memset : (ℕ → ℕ) → ℕ → ℕ → ℕ → (ℕ → ℕ) × ℕ
unfolding fill
memset m dst c bytes = (fill m dst c (rounds bytes), dst)

-- The loops of `memcpy`, by bytes and by words; a word is read before it is written.
unfoldable pub copy_bytes : (ℕ → ℕ) → ℕ → ℕ → ℕ → ℕ → ℕ
copy_bytes m dst src zero = m
copy_bytes m dst src (suc left) = copy_bytes (store m dst (m src)) (dst + 1) (src + 1) left

unfoldable pub move_word : (ℕ → ℕ) → ℕ → ℕ → ℕ → ℕ
move_word m dst src =
    store (store (store (store m dst (m src)) (dst + 1) (m (src + 1))) (dst + 2) (m (src + 2)))
      (dst + 3) (m (src + 3))

unfoldable pub copy_words : (ℕ → ℕ) → ℕ → ℕ → ℕ → ℕ → ℕ
unfolding move_word
copy_words m dst src zero = m
copy_words m dst src (suc left) = copy_words (move_word m dst src) (dst + 4) (src + 4) left

-- `memcpy`: the memory, and the result.
unfoldable pub memcpy : (ℕ → ℕ) → ℕ → ℕ → ℕ → (ℕ → ℕ) × ℕ
unfolding copy_bytes copy_words
memcpy m dst src bytes = (
  (if bit_and (bit_or (bit_or dst src) bytes) 3 == 0
      then copy_words m dst src (rounds (bytes / 2 ^ 2))
      else copy_bytes m dst src (rounds bytes)),
  dst,
)

-- The loops over strings run until they meet the byte 0; they stop without a result when `fuel` bytes
-- have been read.

-- The loop of `strlen`: where the string at `s` ends.
unfoldable pub string_end : ℕ → (ℕ → ℕ) → ℕ → Option ℕ
string_end zero m s = none
string_end (suc fuel) m s =
    let rest = string_end fuel m (s + 1) in if m s == 0 then some s else rest

-- `strlen`
unfoldable pub strlen : ℕ → (ℕ → ℕ) → ℕ → Option ℕ
unfolding string_end
strlen fuel m str = elim (string_end fuel m str) [
  | none ↦ none
  | some s ↦ some ((s - str) % 2 ^ 32)
]

-- The loop of `strcpy`.
unfoldable pub copy_string : ℕ → (ℕ → ℕ) → ℕ → ℕ → Option (ℕ → ℕ)
copy_string zero m dest src = none
copy_string (suc fuel) m dest src =
    let c = m src in
    let rest = copy_string fuel (store m dest c) (dest + 1) (src + 1) in
    if c == 0 then some (store m dest c) else rest

-- `strcpy`: the memory, and the result.
unfoldable pub strcpy : ℕ → (ℕ → ℕ) → ℕ → ℕ → Option ((ℕ → ℕ) × ℕ)
unfolding copy_string
strcpy fuel m dest src = elim (copy_string fuel m dest src) [
  | none ↦ none
  | some m' ↦ some (m', dest)
]

-- `strcmp`; the result is the pattern of -1, 0 or 1.
unfoldable pub strcmp : ℕ → (ℕ → ℕ) → ℕ → ℕ → Option ℕ
strcmp zero m s1 s2 = none
strcmp (suc fuel) m s1 s2 =
    let a = m s1 in
    let b = m s2 in
    let rest = strcmp fuel m (s1 + 1) (s2 + 1) in
    if (a == b) && not (b == 0)
    then rest
    else some (if ltb a b then negative 1 else if ltb b a then 1 else 0)

-- The loop of `hash`.
unfoldable pub hash_from : ℕ → (ℕ → ℕ) → ℕ → ℕ → Option ℕ
hash_from zero m str h = none
hash_from (suc fuel) m str h =
    let c = m str in
    let rest = hash_from fuel m (str + 1) (add32 (add32 (shl h 5) h) c) in
    if c == 0 then some h else rest

-- `hash`
unfoldable pub hash : ℕ → (ℕ → ℕ) → ℕ → Option ℕ
unfolding hash_from
hash fuel m str = hash_from fuel m str 5381

-- `puts`: the characters that it gives to putchar.
unfoldable pub puts : ℕ → (ℕ → ℕ) → ℕ → Option (List ℕ)
puts zero m str = none
puts (suc fuel) m str =
    let c = m str in
    let rest = puts fuel m (str + 1) in
    if c == 0
    then some []
    else elim rest [ none ↦ none | some out ↦ some (if c == 10 then 13 ∷ c ∷ out else c ∷ out) ]

-- The do-while loops of `itoa`: the memory, and where the next character goes. A digit is at most
-- '0' + 15.
unfoldable pub put_digits : ℕ → (ℕ → ℕ) → ℕ → ℕ → ℕ → Option ((ℕ → ℕ) × ℕ)
put_digits zero m q h base = none
put_digits (suc fuel) m q h base =
    let m' = store m q (48 + h % base) in
    let rest = put_digits fuel m' (q + 1) (h / base) base in
    if h / base == 0 then some (m', q + 1) else rest

-- What the swap for base 16 makes of a character.
abbrev pub letter : ℕ → ℕ
letter c = if ltb 57 c then c + 39 else c

-- The loops `for (*q = 0; p <= --q; p++)` after the first statement, for any change of characters.
unfoldable pub swap_ends : (ℕ → ℕ) → ℕ → (ℕ → ℕ) → ℕ → ℕ → Option (ℕ → ℕ)
swap_ends change zero m p q = none
swap_ends change (suc fuel) m p q =
    let c = change (m p) in
    let d = change (m (q - 1)) in
    let rest = swap_ends change fuel (store (store m p d) (q - 1) c) (p + 1) (q - 1) in
    if leb p (q - 1) then rest else some m

-- The terminating zero, and the swaps.
unfoldable pub finish : ℕ → (ℕ → ℕ) → ℕ → ℕ → Option ((ℕ → ℕ) × ℕ) → Option ((ℕ → ℕ) × ℕ)
unfolding swap_ends
finish fuel change s p none = none
finish fuel change s p (some (m, q)) = elim (swap_ends change fuel (store m q 0) p q) [
  | none ↦ none
  | some m' ↦ some (m', s)
]

-- `itoa` for an `int` `i`, given as its pattern: the memory, and the result.
unfoldable pub itoa : ℕ → (ℕ → ℕ) → ℕ → ℕ → ℕ → Option ((ℕ → ℕ) × ℕ)
unfolding put_digits finish
itoa fuel m i s base =
    if base == 16
    then finish fuel letter s s (put_digits fuel m s i base)
    else if ltb i (2 ^ 31)
    then finish fuel (λ c. c) s s (put_digits fuel m s i base)
    else finish fuel (λ c. c) s (s + 1) (put_digits fuel (store m s 45) (s + 1) (2 ^ 32 - i) base)
