-- ===== src/Libc/Strings.antt =====
-- The string functions on memory that holds strings.
use prpl_hypervisor.Base.{
  ℕ, zero, suc, ◌+◌, ◌*◌, ◌%◌, ◌^◌, ◌≤◌, ◌<◌, ◌≡◌, ◌≢◌, refl, sym, ap, ap₂, ◌∙◌, ◌⊎◌, inl, arith,
  ltb, ◌==◌, ==-ne, if◌then◌else◌, List, [], ◌∷◌, some, length, negative, ◌↔◌,
}
use native.Mathlib.Decide.{ℕ_discrete}
use prpl_hypervisor.Machine.{store}
use prpl_hypervisor.Libc.{string_end, strlen, copy_string, strcpy, strcmp, hash_from, hash, puts}

-- Memory holds these characters at the address, and then the byte 0.
abbrev pub Holds : (ℕ → ℕ) → ℕ → List ℕ → Type 0
Holds m s [] = m s ≡ 0
Holds m s (x ∷ xs) = (m s ≡ x) × (x ≢ 0) × Holds m (s + 1) xs

string_end_lem :
    (xs : List ℕ) (fuel : ℕ) (m : ℕ → ℕ) (s : ℕ)
    → Holds m s xs
    → length xs < fuel
    → string_end fuel m s ≡ some (s + length xs)
unfolding string_end
string_end_lem xs zero m s h f = absurd (omega arith)
string_end_lem [] (suc fuel) m s h f = rw h (ap some (omega arith))
string_end_lem (x ∷ xs) (suc fuel) m s h f =
    rw (h.0, ==-ne x 0 h.1)
      (string_end_lem xs fuel m (s + 1) h.2 (omega arith) ∙ ap some (omega arith))

-- Of a string of fewer than 2^32 characters strlen returns how many these are, after one more byte than that.
pub strlen_lem :
    (xs : List ℕ) (fuel : ℕ) (m : ℕ → ℕ) (str : ℕ)
    → Holds m str xs
    → length xs < fuel
    → length xs < 2 ^ 32
    → strlen fuel m str ≡ some (length xs)
unfolding strlen
strlen_lem xs fuel m str h f w =
    rw (string_end_lem xs fuel m str h f, strlen) (ap some (omega arith))

Holds-store :
    (xs : List ℕ) (m : ℕ → ℕ) (s p v : ℕ)
    → Holds m s xs
    → (p < s) ⊎ (s + length xs < p)
    → Holds (store m p v) s xs
Holds-store [] m s p v h out = ground arith
Holds-store (x ∷ xs) m s p v h out =
    (ground arith, h.1, Holds-store xs m (s + 1) p v h.2 (ground arith))

-- What strcpy leaves: the string at the destination, and all else as it was.
abbrev pub CopiesString : List ℕ → (ℕ → ℕ) → ℕ → (ℕ → ℕ) → Type 0
CopiesString xs m dest m' =
    Holds m' dest xs × ((a : ℕ) → (a < dest) ⊎ (dest + length xs < a) → m' a ≡ m a)

copies_more :
    (x : ℕ) (xs : List ℕ) (m : ℕ → ℕ) (dest : ℕ) (m' : ℕ → ℕ)
    → x ≢ 0
    → CopiesString xs (store m dest x) (dest + 1) m'
    → CopiesString (x ∷ xs) m dest m'
copies_more x xs m dest m' n c = (
  (c.1 dest (inl (omega arith)) ∙ store_same, n, c.0),
  λ a out. c.1 a (ground arith) ∙ store_away a (ground arith),
)
  where
    store_same : store m dest x dest ≡ x
    store_same = ground arith

    store_away : (a : ℕ) → a ≢ dest → store m dest x a ≡ m a
    store_away a n = ground arith

copy_string_lem :
    (xs : List ℕ) (fuel : ℕ) (m : ℕ → ℕ) (dest src : ℕ)
    → Holds m src xs
    → length xs < fuel
    → (dest ≤ src) ⊎ (src + length xs < dest)
    → (m' : ℕ → ℕ) × (copy_string fuel m dest src ≡ some m') × CopiesString xs m dest m'
unfolding copy_string
copy_string_lem xs zero m dest src h f apart = absurd (omega arith)
copy_string_lem [] (suc fuel) m dest src h f apart =
    (store m dest 0, rw h refl, (ground arith, λ a out. ground arith))
copy_string_lem (x ∷ xs) (suc fuel) m dest src h f apart =
    let kept : Holds (store m dest x) (src + 1) xs =
      Holds-store xs m (src + 1) dest x h.2 (ground arith) in
    let (m', e, c) =
      copy_string_lem xs fuel (store m dest x) (dest + 1) (src + 1) kept (omega arith)
        (ground arith) in
    (m', rw (h.0, ==-ne x 0 h.1) e, copies_more x xs m dest m' h.1 c)

-- The order of strings: the pattern of -1, 0 or 1.
abbrev pub lexicographic : List ℕ → List ℕ → ℕ
lexicographic [] [] = 0
lexicographic [] (y ∷ ys) = negative 1
lexicographic (x ∷ xs) [] = 1
lexicographic (x ∷ xs) (y ∷ ys) =
    if ltb x y then negative 1 else if ltb y x then 1 else lexicographic xs ys

lexicographic_self : (xs : List ℕ) → lexicographic xs xs ≡ 0
lexicographic_self [] = refl
lexicographic_self (x ∷ xs) = ground (arith, lexicographic_self xs)

lexicographic_zero : (xs ys : List ℕ) → lexicographic xs ys ≡ 0 → xs ≡ ys
lexicographic_zero [] [] e = refl
lexicographic_zero [] (y ∷ ys) e = absurd (omega arith)
lexicographic_zero (x ∷ xs) [] e = absurd (omega arith)
lexicographic_zero (x ∷ xs) (y ∷ ys) e = elim (ℕ_discrete x y) [
  | yes same ↦
      let rest : lexicographic xs ys ≡ 0 = ground (arith, same, e) in
      ap₂ ◌∷◌ same (lexicographic_zero xs ys rest)
  | no n ↦ absurd (ground (arith, n, e))
]

strcmp_more :
    (x : ℕ) (xs ys : List ℕ) (fuel : ℕ) (m : ℕ → ℕ) (s1 s2 : ℕ)
    → m s1 ≡ x
    → m s2 ≡ x
    → x ≢ 0
    → strcmp fuel m (s1 + 1) (s2 + 1) ≡ some (lexicographic xs ys)
    → strcmp (suc fuel) m s1 s2 ≡ some (lexicographic (x ∷ xs) (x ∷ ys))
unfolding strcmp
strcmp_more x xs ys fuel m s1 s2 h k n e = ground (arith, h, k, n, e)

strcmp_differs :
    (x y : ℕ) (xs ys : List ℕ) (fuel : ℕ) (m : ℕ → ℕ) (s1 s2 : ℕ)
    → m s1 ≡ x
    → m s2 ≡ y
    → x ≢ y
    → strcmp (suc fuel) m s1 s2 ≡ some (lexicographic (x ∷ xs) (y ∷ ys))
unfolding strcmp
strcmp_differs x y xs ys fuel m s1 s2 h k n = ground (arith, h, k, n)

strcmp-lexicographic :
    (xs ys : List ℕ) (fuel : ℕ) (m : ℕ → ℕ) (s1 s2 : ℕ)
    → Holds m s1 xs
    → Holds m s2 ys
    → length xs < fuel
    → strcmp fuel m s1 s2 ≡ some (lexicographic xs ys)
unfolding strcmp
strcmp-lexicographic xs ys zero m s1 s2 h k f = absurd (omega arith)
strcmp-lexicographic [] [] (suc fuel) m s1 s2 h k f = rw (h, k) refl
strcmp-lexicographic [] (y ∷ ys) (suc fuel) m s1 s2 h k f = ground (arith, h, k)
strcmp-lexicographic (x ∷ xs) [] (suc fuel) m s1 s2 h k f = ground (arith, h, k)
strcmp-lexicographic (x ∷ xs) (y ∷ ys) (suc fuel) m s1 s2 h k f = elim (ℕ_discrete x y) [
  | yes same ↦
      strcmp_more x xs ys fuel m s1 s2 h.0 (k.0 ∙ sym same) h.1
        (strcmp-lexicographic xs ys fuel m (s1 + 1) (s2 + 1) h.2 k.2 (omega arith))
      ∙ ap (λ z. some (lexicographic (x ∷ xs) (z ∷ ys))) same
  | no n ↦ strcmp_differs x y xs ys fuel m s1 s2 h.0 k.0 n
]

-- On two strings strcmp returns once it has read as many bytes as the first string takes: -1, 0 or 1 as
-- the strings are ordered, and 0 just for equal strings.
pub strcmp_lem :
    (xs ys : List ℕ) (fuel : ℕ) (m : ℕ → ℕ) (s1 s2 : ℕ)
    → Holds m s1 xs
    → Holds m s2 ys
    → length xs < fuel
    → (strcmp fuel m s1 s2 ≡ some (lexicographic xs ys)) × ((lexicographic xs ys ≡ 0) ↔ (xs ≡ ys))
strcmp_lem xs ys fuel m s1 s2 h k f = (
  strcmp-lexicographic xs ys fuel m s1 s2 h k f,
  (lexicographic_zero xs ys, λ e. ap (lexicographic xs) (sym e) ∙ lexicographic_self xs),
)

-- For a string of fewer than 2^32 characters, whose copy does not begin inside the string behind its
-- first byte, strcpy and then strlen return: the copy is the string, of the same length, and bytes outside
-- it are as they were.
pub strlen-strcpy :
    (xs : List ℕ) (fuel : ℕ) (m : ℕ → ℕ) (dest src : ℕ)
    → Holds m src xs
    → length xs < fuel
    → length xs < 2 ^ 32
    → (dest ≤ src) ⊎ (src + length xs < dest)
    → (m' : ℕ → ℕ) × (strcpy fuel m dest src ≡ some (m', dest))
      × CopiesString xs m dest m'
      × (strlen fuel m' dest ≡ strlen fuel m src)
unfolding strcpy
strlen-strcpy xs fuel m dest src h f w apart =
    let (m', e, c) = copy_string_lem xs fuel m dest src h f apart in
    (
      m',
      rw (e, strcpy) refl,
      c,
      strlen_lem xs fuel m' dest c.0 f w ∙ sym (strlen_lem xs fuel m src h f w),
    )

abbrev pub hash_step : ℕ → ℕ → ℕ
hash_step h c = (h * 33 + c) % 2 ^ 32

abbrev pub hash_fold : ℕ → List ℕ → ℕ
hash_fold h [] = h
hash_fold h (x ∷ xs) = hash_fold (hash_step h x) xs

hash_from_lem :
    (xs : List ℕ) (fuel : ℕ) (m : ℕ → ℕ) (str h : ℕ)
    → Holds m str xs
    → length xs < fuel
    → hash_from fuel m str h ≡ some (hash_fold h xs)
unfolding hash_from
hash_from_lem xs zero m str h s f = absurd (omega arith)
hash_from_lem [] (suc fuel) m str h s f = rw s refl
hash_from_lem (x ∷ xs) (suc fuel) m str h s f =
    rw (s.0, ==-ne x 0 s.1)
      (hash_from_lem xs fuel m (str + 1) _ s.2 (omega arith)
        ∙ ap (λ k. some (hash_fold k xs)) (omega arith))

-- hash of a string is 5381, times 33 plus the character for each of its characters, modulo 2^32.
pub hash_lem :
    (xs : List ℕ) (fuel : ℕ) (m : ℕ → ℕ) (str : ℕ)
    → Holds m str xs
    → length xs < fuel
    → hash fuel m str ≡ some (hash_fold 5381 xs)
unfolding hash
hash_lem xs fuel m str h f = hash_from_lem xs fuel m str 5381 h f

-- A line feed is preceded by a carriage return.
abbrev pub with_returns : List ℕ → List ℕ
with_returns [] = []
with_returns (x ∷ xs) = if x == 10 then 13 ∷ x ∷ with_returns xs else x ∷ with_returns xs

-- puts of a string prints its characters, with a carriage return before each line feed.
pub puts_lem :
    (xs : List ℕ) (fuel : ℕ) (m : ℕ → ℕ) (str : ℕ)
    → Holds m str xs
    → length xs < fuel
    → puts fuel m str ≡ some (with_returns xs)
unfolding puts
puts_lem xs zero m str h f = absurd (omega arith)
puts_lem [] (suc fuel) m str h f = rw h refl
puts_lem (x ∷ xs) (suc fuel) m str h f =
    rw (h.0, ==-ne x 0 h.1, puts_lem xs fuel m (str + 1) h.2 (omega arith), h.0) refl
