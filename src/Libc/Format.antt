-- ===== src/Libc/Format.antt =====
-- The formats of sys/lib/libc.c: print, printf and sprintf. `put` is `printchar`, and `string` the
-- characters of the C string at an address. The arguments are words. What C leaves undefined is no
-- result: an argument that is missing, and a read behind the end of the format.
use prpl_hypervisor.Base.{
  ℕ, zero, suc, ◌+◌, ◌-◌, ◌*◌, ◌%◌, ◌^◌, List, [], ◌∷◌, length, Option, none, some, bit_or, leb,
  ◌==◌, ◌&&◌, ◌||◌, ◌++◌, if◌then◌else◌,
}
use prpl_hypervisor.Machine.{store}
use prpl_hypervisor.Libc.Print.{prints, printi, pad_right, pad_zero}

-- A directive behind its `%`: the flags, the width, and the rest of the format.
unfoldable pub skip_zeros : ℕ → List ℕ → ℕ × List ℕ
skip_zeros pad [] = (pad, [])
skip_zeros pad (c ∷ format) =
    let rest = skip_zeros (bit_or pad pad_zero) format in
    if c == 48 then rest else (pad, c ∷ format)

unfoldable pub read_width : ℕ → List ℕ → ℕ × List ℕ
read_width width [] = (width, [])
read_width width (c ∷ format) =
    let rest = read_width (width * 10 + (c - 48)) format in
    if leb 48 c && leb c 57 then rest else (width, c ∷ format)

unfoldable pub flags : List ℕ → ℕ × List ℕ
unfolding skip_zeros
flags [] = (0, [])
flags (c ∷ format) = if c == 45 then skip_zeros pad_right format else skip_zeros 0 (c ∷ format)

-- "(null)"
abbrev pub null_text : List ℕ
null_text = 40 ∷ 110 ∷ 117 ∷ 108 ∷ 108 ∷ 41 ∷ []

module _ {ℓ} {S : Type ℓ} (put : S → ℕ → S) (string : ℕ → List ℕ) where
  -- The conversions, by their character and an argument.
  unfoldable pub convert_one : S → ℕ → ℕ → ℕ → ℕ → Option (S × ℕ)
  convert_one s k a width pad =
      if k == 115
      then some (prints put s (if a == 0 then null_text else string a) width pad)
      else if k == 100
      then printi put s a 10 1 width pad 97
      else if k == 120
      then printi put s a 16 0 width pad 97
      else if k == 88
      then printi put s a 16 0 width pad 65
      else if k == 117
      then printi put s a 10 0 width pad 97
      else some (prints put s (if a % 2 ^ 8 == 0 then [] else a % 2 ^ 8 ∷ []) width pad)

  -- The characters s, d, x, X, u and c take an argument; any other is stepped over.
  unfoldable pub convert : S → ℕ → List ℕ → ℕ → ℕ → Option (S × ℕ × List ℕ)
  unfolding convert_one
  convert s k args width pad =
      if k == 115 || k == 100 || k == 120 || k == 88 || k == 117 || k == 99
      then elim args [
        | [] ↦ none
        | a ∷ rest ↦ elim (convert_one s k a width pad) [
          | none ↦ none
          | some (s', n) ↦ some (s', n, rest)
        ]
      ]
      else some (s, 0, args)

  -- What one round of `print` makes of the format: the output, the characters counted, and what is left.
  unfoldable pub conversion : S → ℕ → ℕ → List ℕ → List ℕ → Option (S × ℕ × List ℕ × List ℕ)
  unfolding convert
  conversion s pad width [] args = none
  conversion s pad width (k ∷ format) args = elim (convert s k args width pad) [
    | none ↦ none
    | some (s', n, rest) ↦ some (s', n, format, rest)
  ]

  unfoldable pub directive : S → List ℕ → List ℕ → Option (S × ℕ × List ℕ × List ℕ)
  unfolding flags read_width conversion
  directive s [] args = some (s, 0, [], args)
  directive s (d ∷ format) args =
      let (pad, rest) = flags (d ∷ format) in
      let (width, rest') = read_width 0 rest in
      if d == 37 then some (put s 37, 1, format, args) else conversion s pad width rest' args

  unfoldable pub print_step : S → ℕ → List ℕ → List ℕ → Option (S × ℕ × List ℕ × List ℕ)
  unfolding directive
  print_step s c format args =
      if c == 37
      then directive s format args
      else some (put (if c == 10 then put s 13 else s) c, 1, format, args)

  -- `print` up to the end of the format; `pc` counts the characters. Each round takes one or more from
  -- the format, so that its length is enough fuel.
  unfoldable pub print_from : ℕ → S → ℕ → List ℕ → List ℕ → Option (S × ℕ)
  unfolding print_step
  print_from fuel s pc [] args = some (s, pc)
  print_from zero s pc (c ∷ format) args = none
  print_from (suc fuel) s pc (c ∷ format) args = elim (print_step s c format args) [
    | none ↦ none
    | some (s', n, format', args') ↦ print_from fuel s' (pc + n) format' args'
  ]

-- `printf`: the characters for the console, and the result.
unfoldable pub printf : (ℕ → List ℕ) → List ℕ → List ℕ → Option (List ℕ × ℕ)
unfolding print_from
printf string format args =
    print_from (λ out c. out ++ c ∷ []) string (length format) [] 0 format args

-- `printchar` into a buffer.
unfoldable pub put_byte : (ℕ → ℕ) × ℕ → ℕ → (ℕ → ℕ) × ℕ
put_byte (m, p) c = (store m p (c % 2 ^ 8), p + 1)

-- `sprintf`: the memory, and the result. The strings do not overlap the buffer.
unfoldable pub sprintf : (ℕ → List ℕ) → (ℕ → ℕ) → ℕ → List ℕ → List ℕ → Option ((ℕ → ℕ) × ℕ)
unfolding print_from put_byte
sprintf string m out format args =
    elim (print_from {S = (ℕ → ℕ) × ℕ} put_byte string (length format) (m, out) 0 format args) [
      | none ↦ none
      | some ((m', p), pc) ↦ some (store m' p 0, pc)
    ]
