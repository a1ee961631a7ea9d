-- ===== src/Libc/Formatted.antt =====
-- What print makes of formats.
use prpl_hypervisor.Base.{
  ℕ, zero, suc, ◌+◌, ◌≤◌, ◌≡◌, ◌≢◌, refl, ap, ◌∙◌, arith, List, [], ◌∷◌, length, some, All, ==-ne,
  ◌==◌, if◌then◌else◌, Bool-cases, inl, inr,
}
use prpl_hypervisor.Libc.Print.{put_all}
use prpl_hypervisor.Libc.Strings.{with_returns}
use prpl_hypervisor.Libc.Format.{directive, print_step, print_from}

module _ {ℓ} {S : Type ℓ} (put : S → ℕ → S) (string : ℕ → List ℕ) where
  put_returns :
      (c : ℕ) (text : List ℕ) (s : S)
      → put_all put (put (if c == 10 then put s 13 else s) c) (with_returns text)
        ≡ put_all put s (with_returns (c ∷ text))
  unfolding put_all
  put_returns c text s = elim (Bool-cases (c == 10)) [ inl t ↦ rw t refl | inr t ↦ rw t refl ]

  print_step-plain :
      (c : ℕ) (format : List ℕ) (s : S) (args : List ℕ)
      → c ≢ 37
      → print_step put string s c format args
        ≡ some (put (if c == 10 then put s 13 else s) c, 1, format, args)
  unfolding print_step
  print_step-plain c format s args n =
      ap
        (λ b.
          if b
          then directive put string s format args
          else some (put (if c == 10 then put s 13 else s) c, 1, format, args))
        (==-ne c 37 n)

  -- A format without directives is printed as it is, with a carriage return before each line feed, which
  -- is not counted.
  pub print_from-plain :
      (format : List ℕ) (fuel : ℕ) (s : S) (pc : ℕ) (args : List ℕ)
      → All (λ c. c ≢ 37) format
      → length format ≤ fuel
      → print_from put string fuel s pc format args
        ≡ some (put_all put s (with_returns format), pc + length format)
  unfolding print_from put_all
  print_from-plain [] fuel s pc args plain l = ap (λ n. some (s, n)) (omega arith)
  print_from-plain (c ∷ format) zero s pc args plain l = absurd (omega arith)
  print_from-plain (c ∷ format) (suc fuel) s pc args plain l =
      rw (print_step-plain c format s args plain.0, print_from)
        (print_from-plain format fuel (put (if c == 10 then put s 13 else s) c) (pc + 1) args
            plain.1 (omega arith)
          ∙ ap (λ r. some (r, pc + 1 + length format)) (put_returns c format s)
          ∙ ap (λ n. some (put_all put s (with_returns (c ∷ format)), n)) (omega arith))
