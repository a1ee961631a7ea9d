-- ===== src/Scheduler/Lookup.antt =====
-- `get_vcpu_from_id` on a valid ready list.
use prpl_hypervisor.Base.{
  false, ℕ, ◌<◌, ◌^◌, ◌≡◌, ◌≢◌, refl, sym, ap, ◌∙◌, subst, ◌⊎◌, inl, inr, List, [], ◌∷◌, ◌++◌,
  arith, length, get_or, All, In, Bool-cases, ◌==◌, ==_iff, if◌then◌else◌, add32, append_assoc,
  length-append, get_or-append_right,
}
use prpl_hypervisor.Queue.{count, get}
use prpl_hypervisor.Queue.Valid.{IsValid, length-contents}
use prpl_hypervisor.Queue.Refine.{get_refines}
use prpl_hypervisor.Machine.{Hypervisor, Vcpu}
use prpl_hypervisor.Scheduler.{search_id, get_vcpu_from_id}
use prpl_hypervisor.Scheduler.Select.{ready}

-- The first VCPU of the list with the id, or NULL.
unfoldable pub first_with_id : (ℕ → Vcpu) → ℕ → List ℕ → ℕ
first_with_id f id [] = 0
first_with_id f id (x ∷ xs) = if (f x).id == id then x else first_with_id f id xs

-- The place behind `xs` in the ready list.
pub place_bound :
    (h : Hypervisor) (xs ys : List ℕ) (y : ℕ)
    → IsValid h.vcpu_ready_list
    → ready h ≡ xs ++ y ∷ ys
    → length xs < 2 ^ 30
place_bound h xs ys y v e =
    omega (arith, v, length-contents h.vcpu_ready_list, ap length e, length-append xs (y ∷ ys))

pub get_place :
    (h : Hypervisor) (xs ys : List ℕ) (y : ℕ)
    → IsValid h.vcpu_ready_list
    → ready h ≡ xs ++ y ∷ ys
    → get h.vcpu_ready_list (length xs) ≡ y
get_place h xs ys y v e =
    get_refines (length xs) v (omega (arith, place_bound h xs ys y v e))
    ∙ ap (λ l. get_or l (length xs) 0) e
    ∙ ap (λ n. get_or (xs ++ y ∷ ys) n 0) (omega arith)
    ∙ get_or-append_right xs (y ∷ ys) 0 0

search_id_lem :
    (h : Hypervisor) (id : ℕ) (xs ys : List ℕ)
    → IsValid h.vcpu_ready_list
    → ready h ≡ xs ++ ys
    → search_id h id (length xs) (length ys) ≡ first_with_id h.vcpu id ys
unfolding search_id first_with_id
search_id_lem h id xs [] v e = refl
search_id_lem h id xs (y ∷ ys) v e =
    rw (get_place h xs ys y v e, search_id)
      (ap (λ r. if (h.vcpu y).id == id then y else r)
        (next (search_id_lem h id (xs ++ y ∷ []) ys v (e ∙ sym (append_assoc xs (y ∷ []) ys)))))
  where
    next :
        search_id h id (length (xs ++ y ∷ [])) (length ys) ≡ first_with_id h.vcpu id ys
        → search_id h id (add32 (length xs) 1) (length ys) ≡ first_with_id h.vcpu id ys
    next rest =
        ap (λ n. search_id h id n (length ys))
          (omega (arith, place_bound h xs ys y v e, length-append xs (y ∷ [])))
        ∙ rest

-- NULL only if no VCPU of the list has the id; otherwise a VCPU of the list that has it.
abbrev pub Found : (ℕ → Vcpu) → ℕ → List ℕ → ℕ → Type 0
Found f id xs r = ((r ≡ 0) × All (λ x. (f x).id ≢ id) xs) ⊎ (In r xs × ((f r).id ≡ id))

Found-later :
    (f : ℕ → Vcpu) (id x r : ℕ) (xs : List ℕ)
    → ((f x).id == id) ≡ false
    → Found f id xs r
    → Found f id (x ∷ xs) r
Found-later f id x r xs e (inl (z, all)) = inl (z, ((λ c. ground arith), all))
Found-later f id x r xs e (inr (i, same)) = inr (inr i, same)

first_with_id-Found : (f : ℕ → Vcpu) (id : ℕ) (xs : List ℕ) → Found f id xs (first_with_id f id xs)
unfolding first_with_id
first_with_id-Found f id [] = inl (refl, tt)
first_with_id-Found f id (x ∷ xs) = elim (Bool-cases ((f x).id == id)) [
  | inl e ↦
      subst (λ b. Found f id (x ∷ xs) (if b then x else rest)) (sym e)
        (inr (inl refl, (==_iff _ _).0 e))
  | inr e ↦
      subst (λ b. Found f id (x ∷ xs) (if b then x else rest)) (sym e)
        (Found-later f id x rest xs e (first_with_id-Found f id xs))
]
  where
    rest : ℕ
    rest = first_with_id f id xs

pub get_vcpu_from_id_lem :
    (h : Hypervisor) (id : ℕ)
    → IsValid h.vcpu_ready_list
    → get_vcpu_from_id h id ≡ first_with_id h.vcpu id (ready h)
unfolding get_vcpu_from_id count
get_vcpu_from_id_lem h id v =
    ap (search_id h id 0) (sym (length-contents h.vcpu_ready_list))
    ∙ search_id_lem h id [] (ready h) v refl

-- On a valid ready list `get_vcpu_from_id` returns a VCPU of the list that has the id, and NULL only
-- if none has it.
pub get_vcpu_from_id-Found :
    (h : Hypervisor) (id : ℕ)
    → IsValid h.vcpu_ready_list
    → Found h.vcpu id (ready h) (get_vcpu_from_id h id)
get_vcpu_from_id-Found h id v =
    subst (Found h.vcpu id (ready h)) (sym (get_vcpu_from_id_lem h id v))
      (first_with_id-Found h.vcpu id (ready h))
