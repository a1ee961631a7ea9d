-- ===== src/Libc/Tests.antt =====
-- Strings and numbers in a small memory.
use prpl_hypervisor.Base.{
  ℕ, ◌++◌, ◌+◌, ◌-◌, ◌≡◌, ◌↔◌, refl, inl, inr, arith, List, [], ◌∷◌, some, none, ◌==◌,
  if◌then◌else◌,
}
use prpl_hypervisor.Libc.{memcpy, strcmp, itoa}
use prpl_hypervisor.Libc.Copy.{within, memcpy_lem}
use prpl_hypervisor.Libc.Strings.{lexicographic, strcmp_lem}
use prpl_hypervisor.Libc.Print.{printi, prints, put_times, put_all, put_before, print_number}
use prpl_hypervisor.Libc.Format.{printf, convert_one}
use prpl_hypervisor.Libc.Itoa.{IsPrinted, itoa_lem}

-- The strings "ab" at 0x100 and "ac" at 0x200.
abbrev memory : ℕ → ℕ
memory a =
    if a == 0x100
    then 97
    else if a == 0x101
    then 98
    else if a == 0x200
    then 97
    else if a == 0x201
    then 99
    else 0

memcpy_lem_example :
    ((memcpy memory 0x300 0x100 8).0 0x301
      ≡ (if within 0x301 0x300 8 then memory (0x100 + (0x301 - 0x300)) else memory 0x301))
    × ((memcpy memory 0x300 0x100 8).1 ≡ 0x300)
memcpy_lem_example = memcpy_lem memory 0x300 0x100 8 0x301 (omega arith) (inr (omega arith))

strcmp_lem_example :
    (strcmp 3 memory 0x100 0x200 ≡ some (lexicographic (97 ∷ 98 ∷ []) (97 ∷ 99 ∷ [])))
    × ((lexicographic (97 ∷ 98 ∷ []) (97 ∷ 99 ∷ []) ≡ 0)
        ↔ (◌≡◌ {A = List ℕ} (97 ∷ 98 ∷ []) (97 ∷ 99 ∷ [])))
strcmp_lem_example =
    strcmp_lem (97 ∷ 98 ∷ []) (97 ∷ 99 ∷ []) 3 memory 0x100 0x200
      (refl, (λ e. omega arith), (refl, (λ e. omega arith), refl))
      (refl, (λ e. omega arith), (refl, (λ e. omega arith), refl)) (omega arith)

-- The least int.
itoa_lem_example :
    (m' : ℕ → ℕ) × (itoa 35 memory 0x80000000 0x300 10 ≡ some (m', 0x300))
    × IsPrinted 10 0x80000000 0x300 memory m'
itoa_lem_example =
    itoa_lem 35 memory 0x80000000 0x300 10 (omega arith) (omega arith) (omega arith)
      (inl (omega arith, omega arith))

prints_minus :
    printi {S = List ℕ} (λ out c. out ++ c ∷ []) [] 0xfffffffb 10 1 4 2 97
    ≡ some (45 ∷ 48 ∷ 48 ∷ 53 ∷ [], 4)
unfolding printi put_before print_number prints put_times put_all
prints_minus = refl

-- 4096 has 13 binary digits.
binary_overflows : printi {S = List ℕ} (λ out c. out ++ c ∷ []) [] 4096 2 0 0 0 97 ≡ none
unfolding printi put_before
binary_overflows = refl

-- "%4d|" of 17, and a format that ends inside a directive.
printf_run :
    printf (λ a. []) (37 ∷ 52 ∷ 100 ∷ 124 ∷ []) (17 ∷ []) ≡ some (32 ∷ 32 ∷ 49 ∷ 55 ∷ 124 ∷ [], 5)
unfolding printf convert_one printi print_number prints put_before put_times put_all
printf_run = refl

printf_unfinished : printf (λ a. []) (37 ∷ 53 ∷ []) (17 ∷ []) ≡ none
unfolding printf
printf_unfinished = refl
