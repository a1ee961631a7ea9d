-- ===== src/Malloc/Init.antt =====
-- The heap after `HeapInit`, and the units of a request.
use prpl_hypervisor.Base.{
  ℕ, ◌+◌, ◌-◌, ◌*◌, ◌^◌, ◌≤◌, ◌<◌, ◌≡◌, ◌≢◌, refl, sym, ap, subst, ◌⊎◌, inl, inr, arith, [], ◌∷◌,
  In, ==-ne, ==-refl, if◌then◌else◌,
}
use prpl_hypervisor.Machine.{store}
use prpl_hypervisor.Malloc.{Heap, advance, units, heap_init}
use prpl_hypervisor.Malloc.Gap.{gap}
use prpl_hypervisor.Malloc.Blocks.{IsFreeList}

-- A request's units hold its bytes and the header, and less than one unit more; but sizes from
-- 2 ^ 32 - 7 on wrap around to a single unit, the header.
pub units_lem :
    (size : ℕ)
    → size < 2 ^ 32
    → ((size + 7 < 2 ^ 32) × (size + 8 ≤ 8 * units size) × (8 * units size < size + 16))
      ⊎ ((2 ^ 32 ≤ size + 7) × (units size ≡ 1))
unfolding units
units_lem size h = ground arith

-- The values from which HeapInit restores the heap of `n` units at `heap`.
abbrev pub IsSaved : ℕ → ℕ → Heap → Type 0
IsSaved heap n s = (s.sfreep ≡ heap) × (s.sfree_ptr ≡ heap) × (s.sfree_size ≡ n)

-- HeapInit is called for the first time, for these units, or again.
abbrev pub Origin : ℕ → ℕ → ℕ → ℕ → Heap → Type 0
Origin heap n start len s =
    ((s.freep ≡ 0) × (start ≡ heap) × (units len - 1 ≡ n)) ⊎ ((s.freep ≢ 0) × IsSaved heap n s)

gap_self : (p x : ℕ) → p < 2 ^ 32 → x ≡ p → gap p p ≤ gap p x
unfolding gap
gap_self p x h e = ground arith

pub single :
    (next size : ℕ → ℕ) (p n : ℕ)
    → next p ≡ p
    → size p ≡ n
    → p ≢ 0
    → n ≢ 0
    → advance p n ≤ 2 ^ 32
    → IsFreeList next size (p ∷ [])
single next size p n link some_size d m h = record {
  ring = link;
  distinct = ((λ i. i), tt);
  bounds = λ a i.
      subst (λ y. (y ≢ 0) × (size y ≢ 0) × (advance y (size y) ≤ 2 ^ 32)) (sym (only a i))
        (
          d,
          subst (λ k. k ≢ 0) (sym some_size) m,
          subst (λ k. advance p k ≤ 2 ^ 32) (sym some_size) h,
        );
  apart = λ a x i j l. let e = only a i in let k = only x j in absurd (omega arith);
  order = λ a x i j.
      subst (λ y. gap y (next y) ≤ gap y x) (sym (only a i))
        (subst (λ y. gap p y ≤ gap p x) (sym link) (gap_self p x (omega arith) (only x j)));
}
  where
    only : (a : ℕ) → In a (p ∷ []) → a ≡ p
    only a (inl e) = e
    only a (inr i) = absurd i

-- After HeapInit, called first for a heap of `n` units or again, the free list is one block of `n`
-- units at `heap`, and the saved values are again those of this heap.
pub heap_init_lem :
    (heap n start len : ℕ) (s : Heap)
    → heap ≢ 0
    → n ≢ 0
    → advance heap n ≤ 2 ^ 32
    → Origin heap n start len s
    → let s' = heap_init start len s in
      IsFreeList s'.next s'.size (s'.freep ∷ [])
      × (s'.freep ≡ heap)
      × (s'.size s'.freep ≡ n)
      × IsSaved heap n s'
unfolding heap_init
heap_init_lem heap n start len s d m h (inl (z, e, k)) =
    rw (z, e, k)
      (
        single (store s.next heap heap) (store s.size heap n) heap n
            (ap (λ c. if c then heap else s.next heap) (==-refl heap))
            (ap (λ c. if c then n else s.size heap) (==-refl heap)) d m h,
        refl,
        ap (λ c. if c then n else s.size heap) (==-refl heap),
        (refl, refl, refl),
      )
heap_init_lem heap n start len s d m h (inr (z, (a, b, c))) =
    rw (==-ne s.freep 0 z, a, b, c)
      (
        single (store s.next heap heap) (store s.size heap n) heap n
            (ap (λ c. if c then heap else s.next heap) (==-refl heap))
            (ap (λ c. if c then n else s.size heap) (==-refl heap)) d m h,
        refl,
        ap (λ c. if c then n else s.size heap) (==-refl heap),
        (refl, refl, refl),
      )
