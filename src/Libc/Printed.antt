-- ===== src/Libc/Printed.antt =====
-- What prints and printi print.
use prpl_hypervisor.Base.{
  ℕ, zero, suc, ◌+◌, ◌-◌, ◌*◌, ◌^◌, ◌≤◌, ◌≡◌, refl, ap, ap₂, ◌∙◌, inl, inr, arith, List, [], ◌∷◌,
  ◌++◌, length, length-append, replicate, length-replicate, bit_and, leb, ◌==◌, ◌&&◌, not, Option,
  some, if◌then◌else◌, Bool, Bool-cases,
}
use prpl_hypervisor.Libc.Print.{
  pad_right, pad_zero, padchar, fill_width, put_times, put_all, prints,
}

-- The text in its field.
abbrev pub padded : ℕ → ℕ → List ℕ → List ℕ
padded width pad text =
    let gap = replicate (fill_width (length text) width) (padchar width pad) in
    if bit_and pad pad_right == 0 then gap ++ text else text ++ gap

module _ {ℓ} {S : Type ℓ} (put : S → ℕ → S) where
  put_times-put_all : (n : ℕ) (s : S) (c : ℕ) → put_times put s c n ≡ put_all put s (replicate n c)
  unfolding put_times put_all
  put_times-put_all zero s c = refl
  put_times-put_all (suc n) s c = put_times-put_all n (put s c) c

  put_all-append :
      (xs ys : List ℕ) (s : S) → put_all put (put_all put s xs) ys ≡ put_all put s (xs ++ ys)
  unfolding put_all
  put_all-append [] ys s = refl
  put_all-append (x ∷ xs) ys s = put_all-append xs ys (put s x)

  gap_before :
      (s : S) (text : List ℕ) (w c : ℕ)
      → ◌≡◌ {A = S × ℕ}
          (
            put_times put (put_all put (put_times put s c w) text) c (w - w),
            w + length text + (w - w),
          )
          (put_all put s (replicate w c ++ text), length (replicate w c ++ text))
  unfolding put_times
  gap_before s text w c =
      let none : w - w ≡ 0 = omega arith in
      let count : w + length text + 0 ≡ length (replicate w c ++ text) =
        omega (arith, length-append (replicate w c) text, length-replicate w c) in
      rw none (
        ap₂ (λ a n. (a, n))
          (ap (λ a. put_all put a text) (put_times-put_all w s c)
            ∙ put_all-append (replicate w c) text s)
          count)

  gap_after :
      (s : S) (text : List ℕ) (w c : ℕ)
      → ◌≡◌ {A = S × ℕ}
          (
            put_times put (put_all put (put_times put s c 0) text) c (w - 0),
            0 + length text + (w - 0),
          )
          (put_all put s (text ++ replicate w c), length (text ++ replicate w c))
  unfolding put_times
  gap_after s text w c =
      let all : w - 0 ≡ w = omega arith in
      let count : 0 + length text + w ≡ length (text ++ replicate w c) =
        omega (arith, length-append text (replicate w c), length-replicate w c) in
      rw all (
        ap₂ (λ a n. (a, n))
          (put_times-put_all w (put_all put s text) c ∙ put_all-append text (replicate w c) s)
          count)

  -- prints prints the text in its field, and returns how many characters these are.
  pub prints_lem :
      (s : S) (text : List ℕ) (width pad : ℕ)
      → prints put s text width pad
        ≡ (put_all put s (padded width pad text), length (padded width pad text))
  unfolding prints
  prints_lem s text width pad = elim (Bool-cases (bit_and pad pad_right == 0)) [
    | inl t ↦ rw t (gap_before s text (fill_width (length text) width) (padchar width pad))
    | inr t ↦ rw t (gap_after s text (fill_width (length text) width) (padchar width pad))
  ]

pub length-padded : (width pad : ℕ) (text : List ℕ) → width ≤ length (padded width pad text)
length-padded width pad text = elim (Bool-cases (bit_and pad pad_right == 0)) [
  | inl t ↦ rw t (
      omega (
        arith,
        wide,
        length-append (replicate w (padchar width pad)) text,
        length-replicate w (padchar width pad),
      ))
  | inr t ↦ rw t (
      omega (
        arith,
        wide,
        length-append text (replicate w (padchar width pad)),
        length-replicate w (padchar width pad),
      ))
]
  where
    w : ℕ
    w = fill_width (length text) width

    wide : width ≤ length text + w
    wide = ground arith

-- The digits that `put_before` writes, read back.
abbrev pub value_of : ℕ → ℕ → ℕ → List ℕ → ℕ
value_of letbase base acc [] = acc
value_of letbase base acc (c ∷ cs) =
    value_of letbase base (acc * base + (if leb c 57 then c - 48 else c + 10 - letbase)) cs

-- The character of a digit.
abbrev pub digit_char : ℕ → ℕ → ℕ
digit_char letbase t = (if leb 10 t then t + letbase - 48 - 10 else t) + 48

-- A sign is printed for a negative number if it is signed and decimal.
abbrev pub is_negative : ℕ → ℕ → ℕ → Bool
is_negative i b sg = not (sg == 0) && b == 10 && leb (2 ^ 31) i

abbrev pub absolute : ℕ → ℕ → ℕ → ℕ
absolute i b sg = if is_negative i b sg then 2 ^ 32 - i else i

-- How printi lays out a number with these digits: 0, or a sign in front of the field, or a sign in the
-- field, or none.
abbrev pub layout : List ℕ → ℕ → Bool → ℕ → ℕ → List ℕ
layout text i negative width pad =
    if i == 0
    then padded width pad (48 ∷ [])
    else if negative
    then if not (width == 0) && not (bit_and pad pad_zero == 0)
      then 45 ∷ padded (width - 1) pad text
      else padded width pad (45 ∷ text)
    else padded width pad text

module _ {ℓ} {S : Type ℓ} (put : S → ℕ → S) where
  -- What printing a text gives.
  abbrev pub Prints : S → List ℕ → Option (S × ℕ) → Type ℓ
  Prints s text r = r ≡ some (put_all put s text, length text)
