-- ===== src/Libc/Print.antt =====
-- The formatted printing of sys/lib/libc.c: prints and printi. `put` is `printchar`: what becomes of the
-- output when a character is printed, on the console or in a buffer. A string is the list of its characters;
-- widths are not negative.
use prpl_hypervisor.Base.{
  ℕ, zero, suc, ◌+◌, ◌-◌, ◌/◌, ◌%◌, ◌^◌, List, [], ◌∷◌, length, bit_and, ltb, leb, ◌==◌, ◌&&◌, not,
  Bool, Option, none, some, if◌then◌else◌,
}

-- PAD_RIGHT and PAD_ZERO
abbrev pub pad_right : ℕ
pad_right = 1

abbrev pub pad_zero : ℕ
pad_zero = 2

-- The loop of `printi` over the digits of `u`, which fills its buffer from the end: `room` characters are
-- left in front of `text`. A digit in front of the buffer, which C leaves undefined, is no result.
unfoldable pub put_before : ℕ → ℕ → ℕ → ℕ → List ℕ → Option (List ℕ)
put_before zero u b letbase text = if u == 0 then some text else none
put_before (suc room) u b letbase text =
    let t = u % b in
    let t' = if leb 10 t then t + letbase - 48 - 10 else t in
    let rest = put_before room (u / b) b letbase ((t' + 48) ∷ text) in
    if u == 0 then some text else rest

-- The character that fills, and how often.
abbrev pub padchar : ℕ → ℕ → ℕ
padchar width pad = if ltb 0 width && not (bit_and pad pad_zero == 0) then 48 else 32

abbrev pub fill_width : ℕ → ℕ → ℕ
fill_width len width = if leb width len then 0 else width - len

-- One character was printed before these.
abbrev pub counted_more {ℓ} : {S : Type ℓ} → S × ℕ → S × ℕ
counted_more (s, pc) = (s, 1 + pc)

module _ {ℓ} {S : Type ℓ} (put : S → ℕ → S) where
  unfoldable pub put_times : S → ℕ → ℕ → S
  put_times s c zero = s
  put_times s c (suc n) = put_times (put s c) c n

  unfoldable pub put_all : S → List ℕ → S
  put_all s [] = s
  put_all s (c ∷ cs) = put_all (put s c) cs

  -- `prints`: the output, and the number of characters.
  unfoldable pub prints : S → List ℕ → ℕ → ℕ → S × ℕ
  unfolding put_times put_all
  prints s string width pad =
      let w = fill_width (length string) width in
      let left = if bit_and pad pad_right == 0 then w else 0 in
      let s1 = put_times s (padchar width pad) left in
      let s2 = put_all s1 string in
      let s3 = put_times s2 (padchar width pad) (w - left) in
      (s3, left + length string + (w - left))

  -- What `printi` does when the digits stand in the buffer; there is room for a sign in front of ten.
  unfoldable pub print_number : S → List ℕ → Bool → ℕ → ℕ → Option (S × ℕ)
  print_number s text neg width pad =
      if neg
      then if not (width == 0) && not (bit_and pad pad_zero == 0)
        then some (counted_more (prints (put s 45) text (width - 1) pad))
        else if leb (length text) 10
        then some (prints s (45 ∷ text) width pad)
        else none
      else some (prints s text width pad)

  -- `printi`; `sg` is a truth value. `print_buf` has 12 characters, the last of them the end of the string.
  unfoldable pub printi : S → ℕ → ℕ → ℕ → ℕ → ℕ → ℕ → Option (S × ℕ)
  unfolding put_before print_number
  printi s i b sg width pad letbase =
      let neg = not (sg == 0) && b == 10 && leb (2 ^ 31) i in
      let u = if neg then 2 ^ 32 - i else i in
      if i == 0 then some (prints s (48 ∷ []) width pad) else elim (put_before 11 u b letbase []) [
        | none ↦ none
        | some text ↦ print_number s text neg width pad
      ]
