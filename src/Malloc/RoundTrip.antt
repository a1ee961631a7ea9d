-- ===== src/Malloc/RoundTrip.antt =====
-- `free` after `malloc`, and the heap after `HeapInit`.
use prpl_hypervisor.Base.{
  ℕ, ◌-◌, ◌^◌, ◌≤◌, ◌<◌, ◌≡◌, ◌≢◌, refl, sym, subst, ◌⊎◌, inl, inr, arith, List, ◌∷◌, length, some,
}
use prpl_hypervisor.Malloc.{Heap, advance, units, malloc, free}
use prpl_hypervisor.Malloc.Blocks.{IsFreeList, Covers, Within}
use prpl_hypervisor.Malloc.Grant.{Divisible, Granted, malloc_lem, units-ne}
use prpl_hypervisor.Malloc.Join.{SameBytes}
use prpl_hypervisor.Malloc.Release.{IsUsed, free_lem}

-- A block that malloc gave out may be freed.
pub Granted-IsUsed :
    (s s' : Heap) (rs us : List ℕ) (n b : ℕ)
    → IsFreeList s.next s.size rs
    → n ≢ 0
    → Granted s rs n s' b us
    → IsUsed s'.size (s'.freep ∷ us) b
Granted-IsUsed s s' rs us n b v some_units g =
    let last = g.3.2 (advance b n - 1) (omega arith, omega arith) in
    let h = v.bounds last.0 last.1 in
    (
      g.2,
      subst (λ k. k ≢ 0) (sym g.1) some_units,
      subst (λ k. advance b k ≤ 2 ^ 32) (sym g.1) (omega (arith, last.3, h.2)),
      subst (λ k. (x : ℕ) → Within b k x → ¬ Covers s'.size (s'.freep ∷ us) x) (sym g.1)
          (λ x w c. (g.3.1 x c).1 w),
    )

-- On a valid free list, of which a single block does not fit exactly, malloc returns NULL and changes
-- nothing, or it returns a pointer with which free gets through, and then the same bytes are free as
-- before both calls, on a valid free list.
pub free-malloc :
    (fuel size : ℕ) (s : Heap) (ts : List ℕ)
    → IsFreeList s.next s.size (s.freep ∷ ts)
    → Divisible s.next s.size s.freep (units size)
    → length ts < fuel
    → 2 ^ 32 ≤ fuel
    → (malloc fuel size s ≡ some (s, 0))
      ⊎ ((s' : Heap) × (ptr : ℕ) × (s'' : Heap) × (us : List ℕ) × (malloc fuel size s
            ≡ some (s', ptr))
          × (free fuel ptr s' ≡ some s'')
          × IsFreeList s''.next s''.size (s''.freep ∷ us)
          × SameBytes (Covers s.size (s.freep ∷ ts)) (Covers s''.size (s''.freep ∷ us)))
free-malloc fuel size s ts v d f g = elim (malloc_lem fuel size s ts v d f) [
  | inl r ↦ inl r.0
  | inr (s', b, us, e, r) ↦
      let n : ℕ = units size in
      let clear : advance b (s'.size b) ≢ s'.freep =
        subst (λ k. advance b k ≢ s'.freep) (sym r.1) (r.5 s'.freep (inl refl)) in
      let (s'', rs, k, w) =
        free_lem fuel b s' us r.0 (Granted-IsUsed s s' (s.freep ∷ ts) us n b v (units-ne size) r)
          (inr clear) g in
      let within : (x : ℕ) → Within b (s'.size b) x → Within b n x =
        λ x h. subst (λ m. Within b m x) r.1 h in
      let back : (x : ℕ) → Within b n x → Within b (s'.size b) x =
        λ x h. subst (λ m. Within b m x) (sym r.1) h in
      inr (
        s',
        advance b 1,
        s'',
        rs,
        e,
        k,
        w.0,
        (
          λ x c. elim (r.3.0 x c) [ inl h ↦ (w.1.1 x h).0 | inr h ↦ w.1.2 x (back x h) ],
          λ x c. elim (w.1.0 x c) [ inl h ↦ (r.3.1 x h).0 | inr h ↦ r.3.2 x (within x h) ],
        ),
      )
]
