-- ===== src/Malloc/Limits.antt =====
-- The calls that a ring of one block does not survive.
use prpl_hypervisor.Base.{
  sub32, ℕ, suc, ◌+◌, ◌^◌, ◌≤◌, ◌<◌, ◌≡◌, ◌≢◌, refl, sym, ap, ◌∙◌, fun_ext, inl, arith, [], ◌∷◌,
  some, ==-ne, ==-refl, if◌then◌else◌, leb, true, false, ◌==◌, add32,
}
use prpl_hypervisor.Machine.{store}
use prpl_hypervisor.Malloc.{
  Heap, advance, units, take_block, search_block, malloc, find_place, is_place, insert_block,
  join_above, join_below, free,
}
use prpl_hypervisor.Malloc.Blocks.{IsFreeList}

store_same : (f : ℕ → ℕ) (p : ℕ) → store f p (f p) ≡ f
store_same f p = fun_ext (λ a. ground arith)

leb_refl : (a : ℕ) → leb a a ≡ true
leb_refl a = ground arith

-- If the free list is a single block that fits exactly, malloc returns it and changes nothing: the
-- block stays in the free list, and the same request gets the same memory again.
pub malloc_repeats :
    (fuel size : ℕ) (s : Heap)
    → IsFreeList s.next s.size (s.freep ∷ [])
    → s.size s.freep ≡ units size
    → malloc (suc fuel) size s ≡ some (s, advance s.freep 1)
unfolding malloc search_block take_block
malloc_repeats fuel size s v e =
    rw
      (
        ==-ne s.freep 0 (v.bounds s.freep (inl refl)).0,
        v.ring,
        e,
        leb_refl (units size),
        ==-refl (units size),
      )
      (ap (λ f. some (record s { next = f }, advance s.freep 1)) (store_same s.next s.freep))

place_below : (next : ℕ → ℕ) (p b : ℕ) → next p ≡ p → b < p → is_place next b p ≡ true
unfolding is_place
place_below next p b e l = rw e (ground arith)

-- If the free list is a single block and the block directly below it is freed, both are in the free
-- list afterwards, and the lower one reaches to the end of the upper one.
pub free_overlaps :
    (fuel b : ℕ) (s : Heap)
    → IsFreeList s.next s.size (s.freep ∷ [])
    → b ≢ 0
    → s.size b ≢ 0
    → advance b (s.size b) ≡ s.freep
    → (s' : Heap) × (free (suc fuel) (advance b 1) s ≡ some s')
      × (s'.freep ≡ s.freep)
      × (s'.next s.freep ≡ b)
      × (s'.next b ≡ s.freep)
      × (advance b (s'.size b) ≡ advance s.freep (s'.size s.freep))
unfolding free find_place insert_block join_above join_below
free_overlaps fuel b s v d m e = (
  s',
  rw (start, placed, touch, clear) refl,
  refl,
  ap (λ c. if c then b else s1 s.freep) (==-refl s.freep),
  ap (λ c. if c then b else s1 b) (==-ne b s.freep less)
      ∙ ap (λ c. if c then s.next (s.next s.freep) else s.next b) (==-refl b)
      ∙ ap s.next v.ring
      ∙ v.ring,
  omega (arith, at_b, at_p, e),
)
  where
    less : b ≢ s.freep
    less k = omega (arith, e, m)

    bounded : (s.freep ≢ 0) × (s.size s.freep ≢ 0) × (advance s.freep (s.size s.freep) ≤ 2 ^ 32)
    bounded = v.bounds s.freep (inl refl)

    sizes : ℕ → ℕ
    sizes = store s.size b (add32 (s.size b) (s.size (s.next s.freep)))

    s1 : ℕ → ℕ
    s1 = store s.next b (s.next (s.next s.freep))

    s' : Heap
    s' = record s { size = sizes; next = store s1 s.freep b; freep = s.freep }

    start : sub32 (advance b 1) 8 ≡ b
    start = omega (arith, e, bounded.2, m)

    placed : is_place s.next b s.freep ≡ true
    placed = place_below s.next s.freep b v.ring (omega (arith, e, m))

    touch : (advance b (s.size b) == s.next s.freep) ≡ true
    touch = ap (λ n. n == s.next s.freep) (e ∙ sym v.ring) ∙ ==-refl (s.next s.freep)

    at_b : sizes b ≡ s.size b + s.size s.freep
    at_b =
        ap (λ c. if c then add32 (s.size b) (s.size (s.next s.freep)) else s.size b) (==-refl b)
        ∙ ap (λ n. add32 (s.size b) (s.size n)) v.ring
        ∙ omega (arith, e, bounded.2)

    at_p : sizes s.freep ≡ s.size s.freep
    at_p =
        ap (λ c. if c then add32 (s.size b) (s.size (s.next s.freep)) else s.size s.freep)
          (==-ne s.freep b (λ k. less (sym k)))

    clear : (advance s.freep (sizes s.freep) == b) ≡ false
    clear = ==-ne (advance s.freep (sizes s.freep)) b (λ k. omega (arith, e, k))
