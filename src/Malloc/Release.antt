-- ===== src/Malloc/Release.antt =====
-- What `free` leaves.
use prpl_hypervisor.Base.{
  sub32, ℕ, ◌^◌, ◌≤◌, ◌<◌, ◌≡◌, ◌≢◌, refl, sym, ◌∙◌, subst, ◌⊎◌, inl, inr, arith, List, [], ◌∷◌, In,
  some, Bool-cases, ==-ne, ◌==◌,
}
use native.Mathlib.Decide.{ℕ_discrete}
use prpl_hypervisor.Malloc.{Heap, advance, join_above, join_below, free}
use prpl_hypervisor.Malloc.Gap.{gap}
use prpl_hypervisor.Malloc.Blocks.{IsFreeList, Covers, Within, below_word}
use prpl_hypervisor.Malloc.Search.{SameMembers}
use prpl_hypervisor.Malloc.Take.{IsTaken}
use prpl_hypervisor.Malloc.Grant.{SameSaved}
use prpl_hypervisor.Malloc.Place.{find_place_lem}
use prpl_hypervisor.Malloc.Join.{IsReady, IsReady-linked, Bytes, SameBytes}
use prpl_hypervisor.Malloc.Above.{IsReady-joined}
use prpl_hypervisor.Malloc.Below.{IsFreeList-linked, IsFreeList-joined}

gap-le : (p b : ℕ) → p < 2 ^ 32 → b < 2 ^ 32 → p ≢ b → gap p b < 2 ^ 32
unfolding gap
gap-le p b h k n = ground arith

saved_above : (s : Heap) (b q : ℕ) → SameSaved s (join_above s b q)
unfolding join_above
saved_above s b q = elim (Bool-cases (advance b (s.size b) == s.next q)) [
  | inl t ↦ rw t (refl, refl, refl)
  | inr t ↦ rw t (refl, refl, refl)
]

saved_below : (s : Heap) (b q : ℕ) → SameSaved s (join_below s b q)
unfolding join_below
saved_below s b q = elim (Bool-cases (advance q (s.size q) == b)) [
  | inl t ↦ rw t (refl, refl, refl)
  | inr t ↦ rw t (refl, refl, refl)
]

sizes_above : (s : Heap) (b q y : ℕ) → y ≢ b → (join_above s b q).size y ≡ s.size y
unfolding join_above
sizes_above s b q y n = elim (Bool-cases (advance b (s.size b) == s.next q)) [
  | inl t ↦ rw (t, ==-ne y b n) refl
  | inr t ↦ rw t refl
]

sizes_below : (s : Heap) (b q y : ℕ) → y ≢ q → (join_below s b q).size y ≡ s.size y
unfolding join_below
sizes_below s b q y n = elim (Bool-cases (advance q (s.size q) == b)) [
  | inl t ↦ rw (t, ==-ne y q n) refl
  | inr t ↦ rw t refl
]

-- The block may be freed: it has a size, it ends within memory, and none of its bytes is free.
abbrev pub IsUsed : (ℕ → ℕ) → List ℕ → ℕ → Type 0
IsUsed size rs b =
    (b ≢ 0)
    × (size b ≢ 0)
    × (advance b (size b) ≤ 2 ^ 32)
    × ((x : ℕ) → Within b (size b) x → ¬ Covers size rs x)

-- The only free block is not directly above `b`.
abbrev pub NotBelow : (ℕ → ℕ) → (ℕ → ℕ) → ℕ → ℕ → Type 0
NotBelow next size p b = (next p ≢ p) ⊎ (advance b (size b) ≢ p)

-- The first step at the place `q`.
joined_above :
    (s : Heap) (q b : ℕ) (us : List ℕ)
    → IsFreeList s.next s.size (q ∷ us)
    → IsUsed s.size (q ∷ us) b
    → gap q b < gap q (s.next q)
    → NotBelow s.next s.size q b
    → let s' = join_above s b q in
      (rs : List ℕ) × IsReady s'.next s'.size q b rs
      × SameBytes (Bytes s.size (q ∷ us) b) (Bytes s'.size (q ∷ rs) b)
joined_above s q b us v u near d = elim (ℕ_discrete (advance b (s.size b)) (s.next q)) [
  | no m ↦ let r = IsReady-linked s q b us v (u.0, u.1, u.2) u.3 near m in (us, r.0, r.1)
  | yes e ↦ joined us v u e
]
  where
    joined :
        (us : List ℕ)
        → IsFreeList s.next s.size (q ∷ us)
        → IsUsed s.size (q ∷ us) b
        → advance b (s.size b) ≡ s.next q
        → let s' = join_above s b q in
          (rs : List ℕ) × IsReady s'.next s'.size q b rs
          × SameBytes (Bytes s.size (q ∷ us) b) (Bytes s'.size (q ∷ rs) b)
    joined [] v u e = absurd (elim d [ inl m ↦ m v.ring | inr m ↦ m (e ∙ v.ring) ])
    joined (t ∷ us) v u e =
        let r = IsReady-joined s q b t us v (u.0, u.1, u.2) u.3 near e in (us, r.0, r.1)

-- The second step.
joined_below :
    (s : Heap) (q b : ℕ) (us : List ℕ)
    → IsReady s.next s.size q b us
    → let s' = join_below s b q in
      (rs : List ℕ) × IsFreeList s'.next s'.size (s'.freep ∷ rs)
      × SameBytes (Bytes s.size (q ∷ us) b) (Covers s'.size (s'.freep ∷ rs))
joined_below s q b us r = elim (ℕ_discrete (advance q (s.size q)) b) [
  | yes e ↦ let w = IsFreeList-joined s q b us r e in (us, w.0, w.1)
  | no m ↦ let w = IsFreeList-linked s q b us r m in (b ∷ us, w.0, w.1)
]

NotBelow-same :
    (s : Heap) (q b : ℕ) (ts us : List ℕ)
    → IsFreeList s.next s.size (q ∷ us)
    → SameMembers (q ∷ us) (s.freep ∷ ts)
    → NotBelow s.next s.size s.freep b
    → NotBelow s.next s.size q b
NotBelow-same s q b ts (u ∷ us) v same d = inl (λ k. v.distinct.0 (inl (sym k ∙ v.ring.0)))
NotBelow-same s q b ts [] v same d =
    subst (λ y. NotBelow s.next s.size y b) (only (same.1 s.freep (inl refl))) d
  where
    only : In s.freep (q ∷ []) → s.freep ≡ q
    only (inl e) = e
    only (inr i) = absurd i

-- The heap after the block `b` was freed; the other headers in use keep their sizes.
abbrev pub Released : Heap → List ℕ → ℕ → Heap → List ℕ → Type 0
Released s rs b s' us =
    IsFreeList s'.next s'.size (s'.freep ∷ us)
    × IsTaken s'.size (s'.freep ∷ us) s.size rs b (s.size b)
    × SameSaved s s'
    × ((y : ℕ) → y ≢ b → (¬ Covers s.size rs y) → s'.size y ≡ s.size y)

-- On a valid free list free gets through for a block in use that is not directly below the only free
-- block: the free bytes are those of before and those of the block, and the free list stays valid, so
-- that free blocks which touch have become one.
pub free_lem :
    (fuel b : ℕ) (s : Heap) (ts : List ℕ)
    → IsFreeList s.next s.size (s.freep ∷ ts)
    → IsUsed s.size (s.freep ∷ ts) b
    → NotBelow s.next s.size s.freep b
    → 2 ^ 32 ≤ fuel
    → (s' : Heap) × (us : List ℕ) × (free fuel (advance b 1) s ≡ some s')
      × Released s (s.freep ∷ ts) b s' us
unfolding free
free_lem fuel b s ts v u d f =
    let word : b < 2 ^ 32 = omega (arith, u.1, u.2) in
    let (q, us, e, r, near, same) =
      find_place_lem fuel s.next s.size b s.freep ts v out word (near_enough word) in
    let (rs, ready, first) =
      joined_above s q b us r (u.0, u.1, u.2, λ x w c. u.3 x w (c.0, same.0 c.0 c.1, c.2, c.3)) near
        (NotBelow-same s q b ts us r same d) in
    let (rs', valid, second) = joined_below (join_above s b q) q b rs ready in
    let s' : Heap = join_below (join_above s b q) b q in
    let kept : SameSaved s s' =
      let k = saved_above s b q in
      let l = saved_below (join_above s b q) b q in (l.0 ∙ k.0, l.1 ∙ k.1, l.2 ∙ k.2) in
    let here : (x : ℕ) → Bytes s.size (q ∷ us) b x → Covers s'.size (s'.freep ∷ rs') x =
      λ x h. second.0 x (first.0 x h) in
    (
      s',
      rs',
      rw (start, e) refl,
      (
        valid,
        (
          λ x c. elim (first.1 x (second.1 x c)) [
            | inl k ↦ inl (k.0, same.0 k.0 k.1, k.2, k.3)
            | inr w ↦ inr w
          ],
          λ x c. (here x (inl (c.0, same.1 c.0 c.1, c.2, c.3)), λ w. u.3 x w c),
          λ x w. here x (inr w),
        ),
        kept,
        λ y n c.
            sizes_below (join_above s b q) b q y (λ k. c (covered (same.0 q (inl refl)) k))
            ∙ sizes_above s b q y n,
      ),
    )
  where
    out : ¬ In b (s.freep ∷ ts)
    out i = u.3 b (omega arith, omega (arith, u.1)) (b, i, omega arith, omega (arith, u.1))

    covered : {q y : ℕ} → In q (s.freep ∷ ts) → y ≡ q → Covers s.size (s.freep ∷ ts) y
    covered {q} {y} i k = let h = v.bounds q i in (q, i, omega (arith, k), omega (arith, k, h.1))

    start : sub32 (advance b 1) 8 ≡ b
    start = omega (arith, u.1, u.2)

    near_enough : b < 2 ^ 32 → gap s.freep b < fuel
    near_enough w =
        let h =
          gap-le s.freep b (below_word s.next s.size (s.freep ∷ ts) s.freep v (inl refl)) w
            (λ e. out (inl (sym e))) in
        omega arith
