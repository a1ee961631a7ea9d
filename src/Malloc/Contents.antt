-- ===== src/Malloc/Contents.antt =====
-- What `calloc` and `realloc` do to the contents of the blocks.
use prpl_hypervisor.Base.{
  ℕ, ◌+◌, ◌-◌, ◌*◌, ◌%◌, ◌^◌, ◌≤◌, ◌<◌, ◌≡◌, ◌≢◌, refl, ◌⊎◌, some, ==-ne, if◌then◌else◌,
}
use prpl_hypervisor.Malloc.{Heap, malloc, free, calloc, realloc, fill_block, move_block, moved}
use prpl_hypervisor.Libc.{memset, memcpy}
use prpl_hypervisor.Libc.Copy.{within, memset_lem, memcpy_lem}

-- With a block from malloc calloc returns this block, filled with zeroes up to the product of its
-- arguments as a word, and leaves all else.
pub calloc_lem :
    (fuel qty type_size ptr a : ℕ) (s s' : Heap) (m : ℕ → ℕ)
    → let bytes : ℕ = (qty * type_size) % 2 ^ 32 in
      malloc fuel bytes s ≡ some (s', ptr)
      → ptr ≢ 0
      → bytes < 2 ^ 31
      → (m' : ℕ → ℕ) × (calloc fuel qty type_size s m ≡ some (s', m', ptr))
        × (m' a ≡ (if within a ptr bytes then 0 else m a))
unfolding calloc fill_block
calloc_lem fuel qty type_size ptr a s s' m e n h = (
  (memset m ptr 0 ((qty * type_size) % 2 ^ 32)).0,
  rw (e, ==-ne ptr 0 n) refl,
  (memset_lem m ptr 0 ((qty * type_size) % 2 ^ 32) a h).0,
)

-- With another block from malloc realloc copies as many bytes as the new size from the old block, and
-- frees that.
pub realloc_lem :
    (fuel ptr size buf a : ℕ) (s s' s'' : Heap) (m : ℕ → ℕ)
    → ptr ≢ 0
    → size ≢ 0
    → malloc fuel size s ≡ some (s', buf)
    → buf ≢ 0
    → free fuel ptr s' ≡ some s''
    → size < 2 ^ 31
    → (buf ≤ ptr) ⊎ (ptr + size ≤ buf)
    → (m' : ℕ → ℕ) × (realloc fuel ptr size s m ≡ some (s'', m', buf))
      × (m' a ≡ (if within a buf size then m (ptr + (a - buf)) else m a))
unfolding realloc move_block moved
realloc_lem fuel ptr size buf a s s' s'' m p n e b f h d = (
  (memcpy m buf ptr size).0,
  rw (==-ne ptr 0 p, ==-ne size 0 n, e, ==-ne buf 0 b, f) refl,
  (memcpy_lem m buf ptr size a h d).0,
)
