-- ===== src/Scheduler/FastInt.antt =====
-- `get_fast_int_vcpu_node` on a valid ready list.
use prpl_hypervisor.Base.{
  true, false, Bool, ℕ, zero, suc, ◌≡◌, ◌≢◌, refl, sym, ◌∙◌, subst, ◌⊎◌, inl, inr, List, [], ◌∷◌,
  ◌++◌, arith, length, take, All, In, Bool-cases, ◌==◌, ==_iff, ==-ne, if◌then◌else◌, add32,
  append_assoc, length-append,
}
use prpl_hypervisor.Queue.{count}
use prpl_hypervisor.Queue.Valid.{IsValid, length-contents}
use prpl_hypervisor.Machine.{Hypervisor, VmConf}
use prpl_hypervisor.Scheduler.{search_fast_int, get_fast_int_vcpu_node, has_fast_int}
use prpl_hypervisor.Scheduler.Loops.{NonNull}
use prpl_hypervisor.Scheduler.Select.{ready}
use prpl_hypervisor.Scheduler.Lookup.{place_bound, get_place}

has_fast_int_lem :
    (ints : List ℕ) (sz f : ℕ)
    → ((has_fast_int ints sz f ≡ true) × In f (take sz ints))
      ⊎ ((has_fast_int ints sz f ≡ false) × ¬ In f (take sz ints))
unfolding has_fast_int
has_fast_int_lem ints zero f = inr (refl, λ i. i)
has_fast_int_lem [] (suc sz) f = inr (refl, λ i. i)
has_fast_int_lem (x ∷ xs) (suc sz) f = elim (Bool-cases (f == x)) [
  | inl e ↦ inl (rw e refl, inl ((==_iff _ _).0 e))
  | inr e ↦ elim (has_fast_int_lem xs sz f) [
    | inl (k, i) ↦ inl (rw e k, inr i)
    | inr (k, n) ↦ inr (rw e k, λ i. elim i [ inl same ↦ ground arith | inr j ↦ n j ])
  ]
]

-- The VM of the VCPU at `p`, as it is configured, has the fast interrupt `f`.
abbrev pub Handles : Hypervisor → ℕ → ℕ → Type 0
Handles h f p =
    let conf = (h.vm (h.vcpu p).vm).vmconf in In f (take conf.fast_int_sz conf.fast_interrupts)

-- NULL only if no VCPU of the list handles the interrupt; otherwise a VCPU of the list that does.
abbrev pub Serves : Hypervisor → ℕ → List ℕ → ℕ → Type 0
Serves h f xs r = ((r ≡ 0) × All (λ x. ¬ Handles h f x) xs) ⊎ (In r xs × Handles h f r)

Serves-later :
    (h : Hypervisor) (f x r : ℕ) (xs : List ℕ)
    → ¬ Handles h f x
    → Serves h f xs r
    → Serves h f (x ∷ xs) r
Serves-later h f x r xs n (inl (z, all)) = inl (z, (n, all))
Serves-later h f x r xs n (inr (i, w)) = inr (inr i, w)

-- The configuration of the VM of the VCPU at `p`.
conf_of : Hypervisor → ℕ → VmConf
conf_of h p = (h.vm (h.vcpu p).vm).vmconf

-- A round of the loop at `x`, of which the others give `r`.
round : Hypervisor → ℕ → ℕ → ℕ → ℕ
unfolding conf_of
round h f r x =
    if x == 0
    then r
    else if has_fast_int (conf_of h x).fast_interrupts (conf_of h x).fast_int_sz f
    then x
    else r

round-Serves :
    (h : Hypervisor) (f x r : ℕ) (xs : List ℕ)
    → x ≢ 0
    → Serves h f xs r
    → Serves h f (x ∷ xs) (round h f r x)
unfolding round conf_of
round-Serves h f x r xs n s =
    subst (λ b. Serves h f (x ∷ xs) (if b then r else if test then x else r)) (sym (==-ne x 0 n))
      (elim (has_fast_int_lem (conf_of h x).fast_interrupts (conf_of h x).fast_int_sz f) [
        | inl (e, i) ↦
            subst (λ b. Serves h f (x ∷ xs) (if b then x else r)) (sym e) (inr (inl refl, i))
        | inr (e, out) ↦
            subst (λ b. Serves h f (x ∷ xs) (if b then x else r)) (sym e)
              (Serves-later h f x r xs out s)
      ])
  where
    test : Bool
    test = has_fast_int (conf_of h x).fast_interrupts (conf_of h x).fast_int_sz f

search_fast_int-Serves :
    (h : Hypervisor) (f : ℕ) (xs ys : List ℕ)
    → IsValid h.vcpu_ready_list
    → ready h ≡ xs ++ ys
    → All NonNull ys
    → Serves h f ys (search_fast_int h f (length xs) (length ys))
unfolding search_fast_int round conf_of
search_fast_int-Serves h f xs [] v e a = inl (refl, tt)
search_fast_int-Serves h f xs (y ∷ ys) v e a =
    subst (λ p. Serves h f (y ∷ ys) (round h f rest p)) (sym (get_place h xs ys y v e))
      (round-Serves h f y rest ys a.0 (
        subst (λ n. Serves h f ys (search_fast_int h f n (length ys)))
          (omega (arith, place_bound h xs ys y v e, length-append xs (y ∷ [])))
          (search_fast_int-Serves h f (xs ++ y ∷ []) ys v (e ∙ sym (append_assoc xs (y ∷ []) ys))
            a.1)))
  where
    rest : ℕ
    rest = search_fast_int h f (add32 (length xs) 1) (length ys)

-- On a valid ready list without NULL, `get_fast_int_vcpu_node` returns a VCPU of the list whose VM is
-- configured with the fast interrupt, and NULL only if there is none.
pub get_fast_int_vcpu_node-Serves :
    (h : Hypervisor) (f : ℕ)
    → IsValid h.vcpu_ready_list
    → All NonNull (ready h)
    → Serves h f (ready h) (get_fast_int_vcpu_node h f)
unfolding get_fast_int_vcpu_node count
get_fast_int_vcpu_node-Serves h f v a =
    subst (λ n. Serves h f (ready h) (search_fast_int h f 0 n)) (length-contents h.vcpu_ready_list)
      (search_fast_int-Serves h f [] (ready h) v refl a)
