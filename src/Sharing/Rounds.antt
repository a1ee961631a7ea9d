-- ===== src/Sharing/Rounds.antt =====
-- The loop of `receive_frame` on rings with room.
use prpl_hypervisor.Base.{
  ℕ, zero, suc, ◌+◌, ◌≤◌, ◌<◌, ◌≡◌, refl, sym, ap, ◌∙◌, subst, inl, inr, arith, Option, some, none,
  ==-ne, ==-refl, ◌==◌, if◌then◌else◌, Bool, true, false,
}
use native.Mathlib.Decide.{ℕ_discrete}
use prpl_hypervisor.Sharing.{
  Net, get_vm_destination, push, spread, set_size, maccmp, to_one, to_all,
}
use prpl_hypervisor.Sharing.Rings.{waiting, IsRing}
use prpl_hypervisor.Sharing.Counts.{refs}
use prpl_hypervisor.Sharing.Kept.{
  IsShared, HasRoom, first_index_lem, store_at, store_off, push-IsShared, push-waiting, push-other,
}

-- What a step leaves.
abbrev pub Keeps : ℕ → ℕ → Net → Type 0
Keeps c r m = IsShared m × HasRoom m r × (m.vm_counter ≡ c)

same_counter : (n : Net) (i k : ℕ) → (push n i k).vm_counter ≡ n.vm_counter
unfolding push
same_counter n i k = refl

spread-Keeps :
    (left i c r : ℕ) (m : Net) (j k : ℕ)
    → i + left ≡ c
    → k < 10
    → IsShared m
    → m.vm_counter ≡ c
    → ((a : ℕ) → a < c → a < i → waiting (m.vms a) + r ≤ 9)
    → ((a : ℕ) → a < c → i ≤ a → waiting (m.vms a) + suc r ≤ 9)
    → Keeps c r (spread left i m j k)
unfolding spread
spread-Keeps zero i c r m j k e b h same done rest =
    (h, (λ a l. done a (omega (arith, same)) (omega (arith, same))), same)
spread-Keeps (suc left) i c r m j k e b h same done rest = elim (ℕ_discrete i j) [
  | yes d ↦
      let skip : (i == j) ≡ true = ap (λ y. y == j) d ∙ ==-refl j in
      subst (λ t. Keeps c r (spread left (i + 1) (if t then m else push m i k) j k)) (sym skip)
        (spread-Keeps left (i + 1) c r m j k (omega arith) b h same
          (λ a l u. elim (ℕ_discrete a i) [
            | yes z ↦ let w = rest a l (omega arith) in omega arith
            | no z ↦ done a l (omega arith)
          ])
          (λ a l u. rest a l (omega arith)))
  | no d ↦
      let inside : i < m.vm_counter = omega (arith, same) in
      let room : waiting (m.vms i) < 9 =
        let w = rest i (omega arith) (omega arith) in omega arith in
      subst (λ t. Keeps c r (spread left (i + 1) (if t then m else push m i k) j k))
        (sym (==-ne i j d))
        (spread-Keeps left (i + 1) c r (push m i k) j k (omega arith) b
          (push-IsShared m i k h inside b room) (same_counter m i k ∙ same)
          (λ a l u. elim (ℕ_discrete a i) [
            | yes z ↦
                let w = rest i (omega arith) (omega arith) in
                let one = push-waiting m i k h inside b room in
                subst (λ y. waiting ((push m i k).vms y) + r ≤ 9) (sym z) (omega arith)
            | no z ↦
                subst (λ v. waiting v + r ≤ 9) (sym (push-other m i k h inside b room a z))
                  (done a l (omega arith))
          ])
          (λ a l u.
            subst (λ v. waiting v + suc r ≤ 9)
              (sym (push-other m i k h inside b room a (λ z. omega arith)))
              (rest a l (omega arith))))
]

push-Keeps :
    (m : Net) (i k r : ℕ)
    → IsShared m
    → HasRoom m (suc r)
    → i < m.vm_counter
    → k < 10
    → Keeps m.vm_counter r (push m i k)
push-Keeps m i k r h room l b =
    let less : waiting (m.vms i) < 9 = let w = room i l in omega arith in
    (
      push-IsShared m i k h l b less,
      λ a u. elim (ℕ_discrete a i) [
        | yes z ↦
            let w = room i l in
            let one = push-waiting m i k h l b less in
            subst (λ y. waiting ((push m i k).vms y) + r ≤ 9) (sym z) (omega arith)
        | no z ↦
            subst (λ v. waiting v + r ≤ 9) (sym (push-other m i k h l b less a z))
              (let w = room a (subst (λ y. a < y) (same_counter m i k) u) in omega arith)
      ],
      same_counter m i k,
    )

-- Only the counts of the buffers and the rings are read.
pub Keeps-agree :
    (c r : ℕ) (m m' : Net)
    → Keeps c r m
    → m'.vm_counter ≡ m.vm_counter
    → ((k : ℕ) → (m'.buf k).used ≡ (m.buf k).used)
    → m'.vms ≡ m.vms
    → Keeps c r m'
Keeps-agree c r m m' h e counts same = (
  record {
    few = subst (λ y. y ≤ 2) (sym e) h.0.few;
    rings = λ i l. subst IsRing (sym (ap (λ f. f i) same)) (h.0.rings i (subst (λ y. i < y) e l));
    counted = λ k l.
        counts k
        ∙ h.0.counted k l
        ∙ ap (λ y. refs y m.vms k) (sym e)
        ∙ ap (λ v. refs m'.vm_counter v k) (sym same);
  },
  λ i l. subst (λ v. waiting v + r ≤ 9) (sym (ap (λ f. f i) same)) (h.1 i (subst (λ y. i < y) e l)),
  e ∙ h.2,
)

sizes : (m : Net) (k size a : ℕ) → ((set_size m k size).buf a).used ≡ (m.buf a).used
sizes m k size a = elim (ℕ_discrete a k) [
  | yes e ↦
      subst (λ y. ((set_size m k size).buf y).used ≡ (m.buf y).used) (sym e)
        (ap (λ v. v.used) (store_at m.buf k (record (m.buf k) { frame_size = size })))
  | no d ↦ ap (λ v. v.used) (store_off m.buf k a (record (m.buf k) { frame_size = size }) d)
]

pub less_room : (m : Net) (r : ℕ) → IsShared m → HasRoom m (suc r) → Keeps m.vm_counter r m
less_room m r h room = (h, (λ i l. let w = room i l in omega arith), refl)

pub to_one-Keeps :
    (n : Net) (i k size r : ℕ)
    → IsShared n
    → HasRoom n (suc r)
    → i < n.vm_counter
    → k < 10
    → Keeps n.vm_counter r (to_one n i k size)
unfolding to_one
to_one-Keeps n i k size r h room l b =
    Keeps-agree n.vm_counter r (push n i k) (to_one n i k size) (push-Keeps n i k r h room l b) refl
      (sizes (push n i k) k size) refl

pub to_all-Keeps :
    (n : Net) (j k size r : ℕ)
    → IsShared n
    → HasRoom n (suc r)
    → k < 10
    → Keeps n.vm_counter r (to_all n j k size)
unfolding to_all
to_all-Keeps n j k size r h room b =
    let start : Keeps n.vm_counter (suc r) (set_size n k size) =
      Keeps-agree n.vm_counter (suc r) n (set_size n k size) (h, room, refl) refl (sizes n k size)
        refl in
    let all : Net = spread n.vm_counter 0 (set_size n k size) j k in
    Keeps-agree n.vm_counter r all (to_all n j k size)
      (spread-Keeps n.vm_counter 0 n.vm_counter r (set_size n k size) j k (omega arith) b start.0
        refl (λ a l u. absurd (omega arith)) (λ a l u. start.1 a l))
      refl (λ a. refl) refl

-- A destination is a VM that is registered.
pub destination_lem :
    (n : Net) (f : ℕ → ℕ)
    → n.vm_counter ≤ 2
    → get_vm_destination n f < 2
    → get_vm_destination n f < n.vm_counter
unfolding get_vm_destination
destination_lem n f h l =
    elim (first_index_lem (λ i. if maccmp (n.vms i).mac f == 0 then false else true) n.vm_counter
      0) [ inl e ↦ absurd (omega (arith, e.0)) | inr e ↦ omega (arith, e.1) ]

-- A step that goes through keeps the buffers.
abbrev pub Steps : ℕ → ℕ → Option (Net × Bool) → Type 0
Steps c r none = Unit
Steps c r (some (m, ends)) = Keeps c r m

-- The branches of a conditional.
pub if_either :
    {A : Type 0} (P : A → Type 0) (b : Bool) (x y : A)
    → (b ≡ true → P x)
    → P y
    → P (if b then x else y)
if_either P true x y p q = p refl
if_either P false x y p q = q
