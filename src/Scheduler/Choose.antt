-- ===== src/Scheduler/Choose.antt =====
-- The choice that `round_robin_scheduler` makes, on the list of the VCPUs in ready order.
use native.Mathlib.Nat.{le_refl, le_trans}
use prpl_hypervisor.Base.{
  ℕ, suc, ◌≤◌, ◌<◌, ◌≡◌, refl, subst, sym, ◌⊎◌, inl, inr, List, [], ◌∷◌, arith, true, false,
  if◌then◌else◌, Bool-cases, All, In,
}
use prpl_hypervisor.Machine.{Vcpu, is_running}
use prpl_hypervisor.Scheduler.{is_urgent, is_better}

-- A critical VCPU met after so many turns, or the best priority of all.
pub data Choice : Type 0 where
  urgent_at : ℕ → ℕ → Choice
  best : ℕ → Choice

abbrev pub later : Choice → Choice
later (urgent_at m p) = urgent_at (suc m) p
later (best p) = best p

unfoldable pub choose : (ℕ → Vcpu) → ℕ → ℕ → List ℕ → Choice
choose f hp aux [] = best aux
choose f hp aux (x ∷ xs) =
    let better = is_better hp (f x) in
    if is_urgent (f x)
    then urgent_at 1 x
    else later (choose f (if better then (f x).priority_rem else hp) (if better then x else aux) xs)

abbrev pub IsRunning : Vcpu → Type 0
IsRunning v = is_running v.state ≡ true

abbrev pub IsUrgent : Vcpu → Type 0
IsUrgent v = is_urgent v ≡ true

abbrev pub NotUrgent : (ℕ → Vcpu) → ℕ → Type 0
NotUrgent f x = is_urgent (f x) ≡ false

-- No running VCPU of the list has a remaining priority below `n`.
abbrev pub AtLeast : (ℕ → Vcpu) → ℕ → ℕ → Type 0
AtLeast f n x = (is_running (f x).state ≡ false) ⊎ (n ≤ (f x).priority_rem)

-- What the search answers when it began with `aux`, of priority `hp`.
abbrev pub Answers : (ℕ → Vcpu) → ℕ → ℕ → List ℕ → Choice → Type 0
Answers f hp aux xs (urgent_at m p) = In p xs × IsUrgent (f p)
Answers f hp aux xs (best r) =
    All (NotUrgent f) xs
    × (((r ≡ aux) × All (AtLeast f hp) xs)
        ⊎ (In r xs
            × IsRunning (f r)
            × ((f r).priority_rem < hp)
            × All (AtLeast f (f r).priority_rem) xs))

AtLeast-mono :
    (f : ℕ → Vcpu) (m n : ℕ) (xs : List ℕ) → m ≤ n → All (AtLeast f n) xs → All (AtLeast f m) xs
AtLeast-mono f m n [] h a = tt
AtLeast-mono f m n (x ∷ xs) h (inl s, a) = (inl s, AtLeast-mono f m n xs h a)
AtLeast-mono f m n (x ∷ xs) h (inr l, a) = (inr (le_trans h l), AtLeast-mono f m n xs h a)

better_later :
    (f : ℕ → Vcpu) (hp aux x : ℕ) (xs : List ℕ) (r : ℕ)
    → NotUrgent f x
    → is_better hp (f x) ≡ true
    → Answers f (f x).priority_rem x xs (best r)
    → Answers f hp aux (x ∷ xs) (best r)
better_later f hp aux x xs r n b (nu, inl (e, a)) =
    subst (λ y. Answers f hp aux (x ∷ xs) (best y)) (sym e)
      ((n, nu), inr (inl refl, ground arith, ground arith, (inr (le_refl _), a)))
better_later f hp aux x xs r n b (nu, inr (i, run, lt, a)) =
    ((n, nu), inr (inr i, run, ground arith, (inr (ground arith), a)))

not_better : (f : ℕ → Vcpu) (hp x : ℕ) → is_better hp (f x) ≡ false → AtLeast f hp x
not_better f hp x b = elim (Bool-cases (is_running (f x).state)) [
  | inl run ↦ inr (ground arith)
  | inr stopped ↦ inl stopped
]

worse_later :
    (f : ℕ → Vcpu) (hp aux x : ℕ) (xs : List ℕ) (r : ℕ)
    → NotUrgent f x
    → is_better hp (f x) ≡ false
    → Answers f hp aux xs (best r)
    → Answers f hp aux (x ∷ xs) (best r)
worse_later f hp aux x xs r n b (nu, inl (e, a)) = ((n, nu), inl (e, (not_better f hp x b, a)))
worse_later f hp aux x xs r n b (nu, inr (i, run, lt, a)) =
    ((n, nu), inr (inr i, run, lt, (rest (not_better f hp x b), a)))
  where
    rest : AtLeast f hp x → AtLeast f (f r).priority_rem x
    rest (inl s) = inl s
    rest (inr l) = inr (omega arith)

Answers-later :
    (f : ℕ → Vcpu) (hp aux x : ℕ) (xs : List ℕ) (c : Choice)
    → NotUrgent f x
    → let better = is_better hp (f x) in
      Answers f (if better then (f x).priority_rem else hp) (if better then x else aux) xs c
      → Answers f hp aux (x ∷ xs) (later c)
Answers-later f hp aux x xs (urgent_at m p) n a = (inr a.0, a.1)
Answers-later f hp aux x xs (best r) n a = elim (Bool-cases (is_better hp (f x))) [
  | inl b ↦ better_later f hp aux x xs r n b (
      subst
        (λ t. Answers f (if t then (f x).priority_rem else hp) (if t then x else aux) xs (best r)) b
        a)
  | inr b ↦ worse_later f hp aux x xs r n b (
      subst
        (λ t. Answers f (if t then (f x).priority_rem else hp) (if t then x else aux) xs (best r)) b
        a)
]

pub choose-Answers :
    (f : ℕ → Vcpu) (hp aux : ℕ) (xs : List ℕ) → Answers f hp aux xs (choose f hp aux xs)
unfolding choose
choose-Answers f hp aux [] = (tt, inl (refl, tt))
choose-Answers f hp aux (x ∷ xs) = elim (Bool-cases (is_urgent (f x))) [
  | inl u ↦
      subst (λ b. Answers f hp aux (x ∷ xs) (if b then urgent_at 1 x else next)) (sym u)
        (inl refl, u)
  | inr n ↦
      subst (λ b. Answers f hp aux (x ∷ xs) (if b then urgent_at 1 x else next)) (sym n)
        (Answers-later f hp aux x xs _ n (choose-Answers f hp' aux' xs))
]
  where
    hp' : ℕ
    hp' = if is_better hp (f x) then (f x).priority_rem else hp

    aux' : ℕ
    aux' = if is_better hp (f x) then x else aux

    next : Choice
    next = later (choose f hp' aux' xs)

-- What a selection from the list promises: a running critical VCPU; or, if there is none, a running
-- one of the lowest remaining priority; or NULL, if each running one is at 255 or more.
abbrev pub IsSelection : (ℕ → Vcpu) → List ℕ → ℕ → Type 0
IsSelection f xs r =
    (In r xs × IsUrgent (f r))
    ⊎ (All (NotUrgent f) xs
        × (((r ≡ 0) × All (AtLeast f 255) xs)
            ⊎ (In r xs
                × IsRunning (f r)
                × ((f r).priority_rem < 255)
                × All (AtLeast f (f r).priority_rem) xs)))

abbrev pub chosen : Choice → ℕ
chosen (urgent_at m p) = p
chosen (best p) = p

Answers-IsSelection :
    (f : ℕ → Vcpu) (xs : List ℕ) (c : Choice) → Answers f 255 0 xs c → IsSelection f xs (chosen c)
Answers-IsSelection f xs (urgent_at m p) a = inl a
Answers-IsSelection f xs (best r) a = inr a

pub choose-IsSelection :
    (f : ℕ → Vcpu) (xs : List ℕ) → IsSelection f xs (chosen (choose f 255 0 xs))
choose-IsSelection f xs = Answers-IsSelection f xs (choose f 255 0 xs) (choose-Answers f 255 0 xs)
