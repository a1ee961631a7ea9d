-- ===== src/Base/Members.antt =====
-- Membership, distinctness and predicates of lists by recursion, so that they compute to tuples.
use Prim.Native.Nat.{ℕ, zero, suc, ◌<◌}
use prpl_hypervisor.Base.Lists.{length, get_or, set}
use mathlib.Core.Path.{◌≡◌, refl, subst, sym}
use mathlib.Core.Logic.{◌⊎◌, inl, inr}
use mathlib.Core.List.{List, [], ◌∷◌, ◌++◌}
use native.Mathlib.Omega.{arith}

abbrev pub All {ℓ κ} : {A : Type ℓ} → (A → Type κ) → List A → Type κ
All P [] = Unit
All P (x ∷ xs) = P x × All P xs

abbrev pub In : {A : Type 0} → A → List A → Type 0
In x [] = ⊥
In x (y ∷ ys) = (x ≡ y) ⊎ In x ys

abbrev pub Distinct : {A : Type 0} → List A → Type 0
Distinct [] = Unit
Distinct (x ∷ xs) = (¬ In x xs) × Distinct xs

module _ {ℓ κ} {A : Type ℓ} (P : A → Type κ) where
  pub All-append : (xs ys : List A) → All P xs → All P ys → All P (xs ++ ys)
  All-append [] ys h k = k
  All-append (x ∷ xs) ys h k = (h.0, All-append xs ys h.1 k)

  pub All-split : (xs ys : List A) → All P (xs ++ ys) → All P xs × All P ys
  All-split [] ys h = (tt, h)
  All-split (x ∷ xs) ys h = let r = All-split xs ys h.1 in ((h.0, r.0), r.1)

  pub All-swap : (xs ys : List A) → All P (xs ++ ys) → All P (ys ++ xs)
  All-swap xs ys h = let r = All-split xs ys h in All-append ys xs r.1 r.0

module _ {κ} {A : Type 0} (P : A → Type κ) where
  pub All-in : (xs : List A) → All P xs → (x : A) → In x xs → P x
  All-in (y ∷ ys) h x (inl e) = subst P (sym e) h.0
  All-in (y ∷ ys) h x (inr i) = All-in ys h.1 x i
  All-in [] h x i = absurd i

  pub All-of_In : (xs : List A) → ((x : A) → In x xs → P x) → All P xs
  All-of_In [] h = tt
  All-of_In (x ∷ xs) h = (h x (inl refl), All-of_In xs (λ y i. h y (inr i)))

module _ {A : Type 0} where
  pub In-append : (xs ys : List A) (x : A) → In x (xs ++ ys) → In x xs ⊎ In x ys
  In-append [] ys x i = inr i
  In-append (y ∷ xs) ys x (inl e) = inl (inl e)
  In-append (y ∷ xs) ys x (inr i) = elim (In-append xs ys x i) [
    | inl j ↦ inl (inr j)
    | inr j ↦ inr j
  ]

  pub In-append_left : (xs ys : List A) (x : A) → In x xs → In x (xs ++ ys)
  In-append_left [] ys x i = absurd i
  In-append_left (y ∷ xs) ys x (inl e) = inl e
  In-append_left (y ∷ xs) ys x (inr i) = inr (In-append_left xs ys x i)

  pub In-append_right : (xs ys : List A) (x : A) → In x ys → In x (xs ++ ys)
  In-append_right [] ys x i = i
  In-append_right (y ∷ xs) ys x i = inr (In-append_right xs ys x i)

  pub In-swap : (xs ys : List A) (x : A) → In x (xs ++ ys) → In x (ys ++ xs)
  In-swap xs ys x i = elim (In-append xs ys x i) [
    | inl j ↦ In-append_right ys xs x j
    | inr j ↦ In-append_left ys xs x j
  ]

  Distinct-insert :
      (ys xs : List A) (x : A) → ¬ In x (ys ++ xs) → Distinct (ys ++ xs) → Distinct (ys ++ x ∷ xs)
  Distinct-insert [] xs x n d = (n, d)
  Distinct-insert (y ∷ ys) xs x n d = (fresh, Distinct-insert ys xs x (λ i. n (inr i)) d.1)
    where
      fresh : ¬ In y (ys ++ x ∷ xs)
      fresh i = elim (In-append ys (x ∷ xs) y i) [
        | inl j ↦ d.0 (In-append_left ys xs y j)
        | inr (inl e) ↦ n (inl (sym e))
        | inr (inr j) ↦ d.0 (In-append_right ys xs y j)
      ]

  pub Distinct-swap : (xs ys : List A) → Distinct (xs ++ ys) → Distinct (ys ++ xs)
  Distinct-swap [] ys d = subst Distinct (sym (mathlib.Core.List.append-nil ys)) d
  Distinct-swap (x ∷ xs) ys d =
      Distinct-insert ys xs x (λ i. d.0 (In-swap ys xs x i)) (Distinct-swap xs ys d.1)

module _ {κ} {A : Type 0} (P : A → Type κ) where
  pub All-get_or : (xs : List A) (i : ℕ) (d : A) → All P xs → P d → P (get_or xs i d)
  All-get_or [] i d h p = p
  All-get_or (x ∷ xs) zero d h p = h.0
  All-get_or (x ∷ xs) (suc i) d h p = All-get_or xs i d h.1 p

  pub All-set : (xs : List A) (i : ℕ) (v : A) → All P xs → P v → All P (set xs i v)
  All-set [] i v h p = tt
  All-set (x ∷ xs) zero v h p = (p, h.1)
  All-set (x ∷ xs) (suc i) v h p = (h.0, All-set xs i v h.1 p)

  pub All-get_elem : (xs : List A) (i : ℕ) (d : A) → All P xs → i < length xs → P (get_or xs i d)
  All-get_elem [] i d h l = absurd (omega arith)
  All-get_elem (x ∷ xs) zero d h l = h.0
  All-get_elem (x ∷ xs) (suc i) d h l = All-get_elem xs i d h.1 (omega arith)
