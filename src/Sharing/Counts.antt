-- ===== src/Sharing/Counts.antt =====
-- How many VMs still wait for a buffer.
use prpl_hypervisor.Base.{
  ℕ, zero, suc, ◌+◌, ◌*◌, ◌≤◌, ◌<◌, ◌≡◌, ◌≢◌, refl, ap, ◌∙◌, inl, inr, arith, List, [], ◌∷◌, ◌++◌,
  length, ==-ne, ==-refl, ◌==◌, if◌then◌else◌, In,
}
use native.Mathlib.Decide.{ℕ_discrete}
use prpl_hypervisor.Machine.{store}
use prpl_hypervisor.Queue.Window.{length-window}
use prpl_hypervisor.Sharing.{VmCtrl, no_buffer}
use prpl_hypervisor.Sharing.Rings.{waiting, pending}

abbrev pub occurs : ℕ → List ℕ → ℕ
occurs k [] = 0
occurs k (x ∷ xs) = (if x == k then 1 else 0) + occurs k xs

pub occurs-append : (k : ℕ) (xs ys : List ℕ) → occurs k (xs ++ ys) ≡ occurs k xs + occurs k ys
occurs-append k [] ys = omega arith
occurs-append k (x ∷ xs) ys = omega (arith, occurs-append k xs ys)

occurs-le-length : (k : ℕ) (xs : List ℕ) → occurs k xs ≤ length xs
occurs-le-length k [] = omega arith
occurs-le-length k (x ∷ xs) = ground (arith, occurs-le-length k xs)

pub occurs-In : (k : ℕ) (xs : List ℕ) → In k xs → occurs k xs ≢ 0
occurs-In k (x ∷ xs) (inl e) z = ground (arith, e, z)
occurs-In k (x ∷ xs) (inr i) z = occurs-In k xs i (omega arith)
occurs-In k [] i z = i

-- The places of the first `n` rings that hold the buffer.
abbrev pub refs : ℕ → (ℕ → VmCtrl) → ℕ → ℕ
refs zero vms k = 0
refs (suc n) vms k = occurs k (pending (vms n)) + refs n vms k

refs-outside :
    (n i : ℕ) (vms : ℕ → VmCtrl) (v : VmCtrl) (k : ℕ)
    → n ≤ i
    → refs n (store vms i v) k ≡ refs n vms k
refs-outside zero i vms v k l = refl
refs-outside (suc n) i vms v k l =
    ap (λ w. occurs k (pending w) + refs n (store vms i v) k)
      (ap (λ b. if b then v else vms n) (==-ne n i (λ e. omega arith)))
    ∙ ap (λ r. occurs k (pending (vms n)) + r) (refs-outside n i vms v k (omega arith))

-- A ring that changes counts with its new buffers instead of the old ones.
pub refs-store :
    (n i : ℕ) (vms : ℕ → VmCtrl) (v : VmCtrl) (k : ℕ)
    → i < n
    → refs n (store vms i v) k + occurs k (pending (vms i)) ≡ refs n vms k + occurs k (pending v)
refs-store zero i vms v k l = absurd (omega arith)
refs-store (suc n) i vms v k l = elim (ℕ_discrete n i) [
  | yes e ↦
      let here : occurs k (pending (store vms i v n)) ≡ occurs k (pending v) =
        ap (λ w. occurs k (pending w))
          (ap (λ b. if b then v else vms n) (ap (λ y. y == i) e ∙ ==-refl i)) in
      let old : occurs k (pending (vms n)) ≡ occurs k (pending (vms i)) =
        ap (λ y. occurs k (pending (vms y))) e in
      let rest = refs-outside n i vms v k (omega arith) in omega (arith, here, old, rest)
  | no m ↦
      let here : occurs k (pending (store vms i v n)) ≡ occurs k (pending (vms n)) =
        ap (λ w. occurs k (pending w)) (ap (λ b. if b then v else vms n) (==-ne n i m)) in
      let rest = refs-store n i vms v k (omega arith) in omega (arith, here, rest)
]

pub refs_bound : (n : ℕ) (vms : ℕ → VmCtrl) (k : ℕ) → refs n vms k ≤ 9 * n
refs_bound zero vms k = omega arith
refs_bound (suc n) vms k =
    let v : VmCtrl = vms n in
    let few : waiting v < 10 = omega arith in
    let long : length (pending v) ≡ waiting v =
      length-window no_buffer v.frame_list 10 v.output (waiting v) in
    let ring = occurs-le-length k (pending v) in let rest = refs_bound n vms k in omega arith

pub refs_at :
    (n i : ℕ) (vms : ℕ → VmCtrl) (k : ℕ) → i < n → occurs k (pending (vms i)) ≤ refs n vms k
refs_at zero i vms k l = absurd (omega arith)
refs_at (suc n) i vms k l = elim (ℕ_discrete n i) [
  | yes e ↦
      let old : occurs k (pending (vms n)) ≡ occurs k (pending (vms i)) =
        ap (λ y. occurs k (pending (vms y))) e in
      omega (arith, old)
  | no m ↦ let rest = refs_at n i vms k (omega arith) in omega arith
]
