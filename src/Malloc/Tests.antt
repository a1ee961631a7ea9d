-- ===== src/Malloc/Tests.antt =====
-- A heap of 16 units at 0x1000, and a block in use at 0x2000.
use prpl_hypervisor.Base.{
  ℕ, zero, suc, ◌+◌, ◌*◌, ◌^◌, ◌≤◌, ◌<◌, ◌≡◌, ◌≢◌, ◌⊎◌, inl, inr, refl, arith, List, [], ◌∷◌, In,
  some,
}
use prpl_hypervisor.Malloc.{
  Heap, advance, units, heap_init, init_mem, take_block, search_block, malloc, free,
}
use prpl_hypervisor.Malloc.Blocks.{IsFreeList, Covers}
use prpl_hypervisor.Malloc.Grant.{Granted, malloc_lem}
use prpl_hypervisor.Malloc.Release.{IsUsed, Released, free_lem}
use prpl_hypervisor.Malloc.Join.{SameBytes}
use prpl_hypervisor.Malloc.RoundTrip.{free-malloc}
use prpl_hypervisor.Malloc.Init.{single, units_lem}
use prpl_hypervisor.Malloc.Client.{grant, Calls, none_yet, more, IsSound, Calls-IsSound}
use prpl_hypervisor.Malloc.Limits.{malloc_repeats, free_overlaps}

abbrev base : ℕ
base = 0x1000

abbrev block : ℕ
block = 0x2000

-- The sizes are those of a free list that is one block, and of the block in use.
abbrev heap_of : ℕ → Heap
heap_of p = record {
  next = λ a. p;
  size = λ a. 16;
  freep = p;
  sfreep = p;
  sfree_ptr = p;
  sfree_size = 16;
}

one_block : (p : ℕ) → p ≢ 0 → p < 2 ^ 31 → IsFreeList (heap_of p).next (heap_of p).size (p ∷ [])
one_block p n h =
    single (heap_of p).next (heap_of p).size p 16 refl refl n (λ e. omega arith) (omega arith)

base_block : IsFreeList (heap_of base).next (heap_of base).size (base ∷ [])
base_block = one_block base (λ e. omega arith) (omega arith)

units_20 : 16 ≢ units 20
unfolding units
units_20 e = omega arith

abbrev held : IsUsed (heap_of base).size (base ∷ []) block
held = (
  (λ e. omega arith),
  (λ e. omega arith),
  omega arith,
  λ x w c. elim c.1 [ inl e ↦ absurd (omega (arith, c.3, w.0)) | inr i ↦ absurd i ],
)

malloc_lem_example :
    ((malloc 1 20 (heap_of base) ≡ some (heap_of base, 0))
      × ((a : ℕ) → In a (base ∷ []) → 16 < units 20))
    ⊎ ((s' : Heap) × (b : ℕ) × (us : List ℕ) × (malloc 1 20 (heap_of base) ≡ some (s', advance b 1))
        × Granted (heap_of base) (base ∷ []) (units 20) s' b us)
malloc_lem_example = malloc_lem 1 20 (heap_of base) [] base_block (inr units_20) (omega arith)

free_lem_example :
    (s' : Heap) × (us : List ℕ) × (free (2 ^ 32) (advance block 1) (heap_of base) ≡ some s')
    × Released (heap_of base) (base ∷ []) block s' us
free_lem_example =
    free_lem (2 ^ 32) block (heap_of base) [] base_block held (inr (λ e. omega arith)) (omega arith)

free-malloc_example :
    (malloc (2 ^ 32) 20 (heap_of base) ≡ some (heap_of base, 0))
    ⊎ ((s' : Heap) × (ptr : ℕ) × (s'' : Heap) × (us : List ℕ) × (malloc (2 ^ 32) 20 (heap_of base)
          ≡ some (s', ptr))
        × (free (2 ^ 32) ptr s' ≡ some s'')
        × IsFreeList s''.next s''.size (s''.freep ∷ us)
        × SameBytes (Covers (heap_of base).size (base ∷ [])) (Covers s''.size (s''.freep ∷ us)))
free-malloc_example =
    free-malloc (2 ^ 32) 20 (heap_of base) [] base_block (inr units_20) (omega arith) (omega arith)

-- One call of malloc after HeapInit.
abbrev empty : Heap
empty = record (heap_of 0) { freep = 0 }

abbrev started : Heap
unfolding heap_init
started = heap_init base 128 empty

abbrev after : Heap
unfolding take_block
after = (take_block started base base 4).0

run : (fuel : ℕ) → 1 ≤ fuel → malloc fuel 20 started ≡ some (after, 0x1068)
unfolding malloc search_block heap_init take_block units
run zero h = absurd (omega arith)
run (suc fuel) h = refl

one_call : Calls (heap_init base 128 empty) after (0x1060 ∷ [])
unfolding heap_init
one_call = more none_yet (grant 20 0x1060 (inr units_20) (1, run))

started_units : units 128 ≡ 17
unfolding units
started_units = refl

Calls-IsSound_example : IsSound base 16 after (0x1060 ∷ [])
Calls-IsSound_example =
    Calls-IsSound base 16 128 empty after (0x1060 ∷ [])
      ((λ e. omega arith), (λ e. omega arith), omega arith) refl (omega (arith, started_units))
      one_call

units_120 : 16 ≡ units 120
unfolding units
units_120 = refl

malloc_repeats_example : malloc 1 120 (heap_of base) ≡ some (heap_of base, 0x1008)
malloc_repeats_example = malloc_repeats 0 120 (heap_of base) base_block units_120

free_overlaps_example :
    (s' : Heap) × (free 1 0x1f88 (heap_of block) ≡ some s')
    × (s'.freep ≡ block)
    × (s'.next block ≡ 0x1f80)
    × (s'.next 0x1f80 ≡ block)
    × (advance 0x1f80 (s'.size 0x1f80) ≡ advance block (s'.size block))
free_overlaps_example =
    free_overlaps 0 0x1f80 (heap_of block) (one_block block (λ e. omega arith) (omega arith))
      (λ e. omega arith) (λ e. omega arith) refl

-- The heap of init_mem reaches 4 bytes past its memory, which ends at 0x1000 + 0x10c.
past_the_end : (let s = init_mem 0x1000 0x10c empty in advance s.freep (s.size s.freep)) ≡ 0x1110
unfolding init_mem heap_init
past_the_end = refl

units_lem_example :
    ((100 + 7 < 2 ^ 32) × (100 + 8 ≤ 8 * units 100) × (8 * units 100 < 100 + 16))
    ⊎ ((2 ^ 32 ≤ 100 + 7) × (units 100 ≡ 1))
units_lem_example = units_lem 100 (omega arith)
