-- ===== src/Scheduler/Loops.antt =====
-- The two loops of `round_robin_scheduler` on a valid ready list, as folds over what it holds.
use prpl_hypervisor.Base.{
  ℕ, suc, ◌≡◌, refl, ap, ◌∙◌, ◌≢◌, List, [], ◌∷◌, ◌++◌, append_assoc, some, arith, length, All,
  if◌then◌else◌, Bool-cases, inl, inr,
}
use prpl_hypervisor.Queue.{Queue, addtail, remhead}
use prpl_hypervisor.Queue.Valid.{IsValid, contents}
use prpl_hypervisor.Machine.{Hypervisor, Vcpu}
use prpl_hypervisor.Scheduler.{
  requeue, Search, urgent, found, search_highest, lower, lower_all, is_better, is_urgent,
}
use prpl_hypervisor.Scheduler.Rotate.{
  turns, turn-IsValid, contents-turn, remhead-head, addtail-remhead,
}
use prpl_hypervisor.Scheduler.Choose.{Choice, urgent_at, best, later, choose}

abbrev pub NonNull : ℕ → Type 0
NonNull p = p ≢ 0

abbrev pub rotated : ℕ → Hypervisor → Hypervisor
rotated n h = record h { vcpu_ready_list = turns n h.vcpu_ready_list }

accepted :
    {q : Queue} (x : ℕ) (xs : List ℕ)
    → IsValid q
    → contents q ≡ x ∷ xs
    → (addtail (remhead q).0 (remhead q).1).1 ≡ 0
accepted {q} x xs v e =
    ap (λ y. (addtail (remhead q).0 y).1) (remhead-head x xs v e) ∙ addtail-remhead x xs v e

requeue_lem :
    (h : Hypervisor) (x : ℕ) (xs : List ℕ)
    → IsValid h.vcpu_ready_list
    → contents h.vcpu_ready_list ≡ x ∷ xs
    → NonNull x
    → requeue h ≡ some (x, rotated 1 h)
unfolding requeue turns
requeue_lem h x xs v e n = ground (arith, remhead-head x xs v e, accepted x xs v e)

abbrev pub outcome : Hypervisor → ℕ → Choice → Search
outcome h n (urgent_at m p) = urgent p (rotated m h)
outcome h n (best aux) = found aux (rotated n h)

outcome-later :
    (h : Hypervisor) (n : ℕ) (c : Choice) → outcome (rotated 1 h) n c ≡ outcome h (suc n) (later c)
unfolding turns
outcome-later h n (urgent_at m p) = refl
outcome-later h n (best aux) = refl

pub search_highest_lem :
    (hp aux : ℕ) (xs ys : List ℕ) (h : Hypervisor)
    → IsValid h.vcpu_ready_list
    → contents h.vcpu_ready_list ≡ xs ++ ys
    → All NonNull xs
    → search_highest (length xs) hp aux h ≡ outcome h (length xs) (choose h.vcpu hp aux xs)
unfolding search_highest choose turns
search_highest_lem hp aux [] ys h v e n = refl
search_highest_lem hp aux (x ∷ xs) ys h v e n =
    rw (requeue_lem h x (xs ++ ys) v e n.0, search_highest)
      (elim (Bool-cases (is_urgent (h.vcpu x))) [
        | inl u ↦ rw u
        | inr u ↦
            rw
              (
                u,
                search_highest_lem (if is_better hp (h.vcpu x) then (h.vcpu x).priority_rem else hp)
                    (if is_better hp (h.vcpu x) then x else aux) xs (ys ++ x ∷ []) (rotated 1 h)
                    (turn-IsValid v) (contents-turn x (xs ++ ys) v e ∙ append_assoc xs ys (x ∷ []))
                    n.1,
              )
              (outcome-later h (length xs) _)
      ])

-- What the second loop leaves of the VCPUs.
unfoldable pub lower_each : (ℕ → Vcpu) → ℕ → List ℕ → ℕ → Vcpu
lower_each f aux [] = f
lower_each f aux (x ∷ xs) = lower_each (lower f aux x) aux xs

pub lower_all_lem :
    (aux : ℕ) (xs ys : List ℕ) (h : Hypervisor)
    → IsValid h.vcpu_ready_list
    → contents h.vcpu_ready_list ≡ xs ++ ys
    → All NonNull xs
    → lower_all (length xs) aux h
      ≡ some (record (rotated (length xs) h) { vcpu = lower_each h.vcpu aux xs })
unfolding lower_all lower_each turns
lower_all_lem aux [] ys h v e n = refl
lower_all_lem aux (x ∷ xs) ys h v e n =
    rw (requeue_lem h x (xs ++ ys) v e n.0, lower_all)
      (lower_all_lem aux xs (ys ++ x ∷ []) (record (rotated 1 h) { vcpu = lower h.vcpu aux x })
        (turn-IsValid v) (contents-turn x (xs ++ ys) v e ∙ append_assoc xs ys (x ∷ [])) n.1)
