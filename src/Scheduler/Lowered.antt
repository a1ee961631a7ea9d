-- ===== src/Scheduler/Lowered.antt =====
-- What the second loop of `round_robin_scheduler` does to each VCPU.
use prpl_hypervisor.Base.{
  ℕ, ◌≡◌, refl, sym, ap, ◌∙◌, subst, ◌≢◌, inl, inr, List, [], ◌∷◌, arith, In, Distinct, ◌==◌,
  if◌then◌else◌, sub32,
}
use prpl_hypervisor.Machine.{Vcpu, is_running}
use prpl_hypervisor.Scheduler.{lower}
use prpl_hypervisor.Scheduler.Loops.{lower_each}

-- `v` after the loop, where `by` is the VCPU chosen.
unfoldable pub aged : Vcpu → Vcpu → Vcpu
aged by v =
    if is_running v.state
    then record v { priority_rem = sub32 v.priority_rem by.priority_rem }
    else v

lower_other : (f : ℕ → Vcpu) (aux p x : ℕ) → x ≢ p → lower f aux p x ≡ f x
unfolding lower
lower_other f aux p x n = ground arith

pub lower_self :
    (f : ℕ → Vcpu) (aux p : ℕ) → lower f aux p p ≡ (if p == aux then f p else aged (f aux) (f p))
unfolding lower aged
lower_self f aux p = ground arith

lower_aux : (f : ℕ → Vcpu) (aux p : ℕ) → lower f aux p aux ≡ f aux
unfolding lower
lower_aux f aux p = ground arith

pub lower_each_out :
    (f : ℕ → Vcpu) (aux : ℕ) (xs : List ℕ) (p : ℕ) → ¬ In p xs → lower_each f aux xs p ≡ f p
unfolding lower_each
lower_each_out f aux [] p n = refl
lower_each_out f aux (x ∷ xs) p n =
    lower_each_out (lower f aux x) aux xs p (λ i. n (inr i))
    ∙ lower_other f aux x p (λ e. n (inl e))

pub lower_each-In :
    (f : ℕ → Vcpu) (aux : ℕ) (xs : List ℕ) (p : ℕ)
    → Distinct xs
    → In p xs
    → lower_each f aux xs p ≡ (if p == aux then f p else aged (f aux) (f p))
unfolding lower_each
lower_each-In f aux [] p d i = absurd i
lower_each-In f aux (x ∷ xs) p d (inl e) =
    lower_each_out (lower f aux x) aux xs p (λ i. d.0 (subst (λ y. In y xs) e i))
    ∙ ap (λ y. lower f aux y p) (sym e)
    ∙ lower_self f aux p
lower_each-In f aux (x ∷ xs) p d (inr i) =
    lower_each-In (lower f aux x) aux xs p d.1 i
    ∙ ground (arith, lower_aux f aux x, lower_other f aux x p (λ e. d.0 (subst (λ y. In y xs) e i)))

lower-keeps :
    (f : ℕ → Vcpu) (aux x p : ℕ)
    → lower f aux x p ≡ record (f p) { priority_rem = (lower f aux x p).priority_rem }
unfolding lower
lower-keeps f aux x p = ground arith

-- Only `priority_rem` changes.
pub lower_each-keeps :
    (f : ℕ → Vcpu) (aux : ℕ) (xs : List ℕ) (p : ℕ)
    → lower_each f aux xs p ≡ record (f p) { priority_rem = (lower_each f aux xs p).priority_rem }
unfolding lower_each
lower_each-keeps f aux [] p = refl
lower_each-keeps f aux (x ∷ xs) p =
    ground (arith, lower_each-keeps (lower f aux x) aux xs p, lower-keeps f aux x p)
