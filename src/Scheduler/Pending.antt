-- ===== src/Scheduler/Pending.antt =====
-- `pending` counts the VCPUs with a critical event: counting them in the ready list.
use prpl_hypervisor.Base.{
  ℕ, ◌+◌, ◌≤◌, ◌≡◌, refl, sym, ap, ap₂, subst, inl, inr, List, [], ◌∷◌, ◌++◌, arith, length, In,
  Distinct, ◌==◌, if◌then◌else◌,
}
use prpl_hypervisor.Machine.{Vcpu, store}

abbrev pub flag : Vcpu → ℕ
flag v = if v.critical == 0 then 0 else 1

-- How many VCPUs of the list have the critical flag.
abbrev pub critical_count : (ℕ → Vcpu) → List ℕ → ℕ
critical_count f [] = 0
critical_count f (x ∷ xs) = flag (f x) + critical_count f xs

pub critical_count-le : (f : ℕ → Vcpu) (xs : List ℕ) → critical_count f xs ≤ length xs
critical_count-le f [] = omega arith
critical_count-le f (x ∷ xs) = ground (arith, critical_count-le f xs)

pub critical_count_congr :
    (f g : ℕ → Vcpu) (xs : List ℕ)
    → ((p : ℕ) → (g p).critical ≡ (f p).critical)
    → critical_count g xs ≡ critical_count f xs
critical_count_congr f g [] h = refl
critical_count_congr f g (x ∷ xs) h =
    ap₂ ◌+◌ (ap (λ c. if c == 0 then 0 else 1) (h x)) (critical_count_congr f g xs h)

pub critical_count-append :
    (f : ℕ → Vcpu) (xs ys : List ℕ)
    → critical_count f (xs ++ ys) ≡ critical_count f xs + critical_count f ys
critical_count-append f [] ys = omega arith
critical_count-append f (x ∷ xs) ys = omega (arith, critical_count-append f xs ys)

pub critical_count-store_out :
    (f : ℕ → Vcpu) (p : ℕ) (v : Vcpu) (xs : List ℕ)
    → ¬ In p xs
    → critical_count (store f p v) xs ≡ critical_count f xs
critical_count-store_out f p v [] n = refl
critical_count-store_out f p v (x ∷ xs) n =
    ground (arith, λ (e : p ≡ x). n (inl e), critical_count-store_out f p v xs (λ i. n (inr i)))

pub critical_count-store :
    (f : ℕ → Vcpu) (p : ℕ) (v : Vcpu) (xs : List ℕ)
    → Distinct xs
    → In p xs
    → critical_count (store f p v) xs + flag (f p) ≡ critical_count f xs + flag v
critical_count-store f p v [] d i = absurd i
critical_count-store f p v (x ∷ xs) d (inl e) =
    subst
      (λ y. critical_count (store f y v) (x ∷ xs) + flag (f y) ≡ critical_count f (x ∷ xs) + flag v)
      (sym e) (ground (arith, critical_count-store_out f x v xs d.0))
critical_count-store f p v (x ∷ xs) d (inr i) =
    ground
      (arith, λ (e : p ≡ x). d.0 (subst (λ y. In y xs) e i), critical_count-store f p v xs d.1 i)

-- A VCPU with the flag is counted.
pub critical_count-pos :
    (f : ℕ → Vcpu) (p : ℕ) (xs : List ℕ) → In p xs → flag (f p) ≤ critical_count f xs
critical_count-pos f p [] i = absurd i
critical_count-pos f p (x ∷ xs) (inl e) = omega (arith, ap (λ y. flag (f y)) e)
critical_count-pos f p (x ∷ xs) (inr i) = omega (arith, critical_count-pos f p xs i)
