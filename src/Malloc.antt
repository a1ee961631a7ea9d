-- ===== src/Malloc.antt =====
-- sys/lib/malloc.c: the heap, as a ring of free blocks. A `mem_header` is found by its address, and its
-- two words are `next` (s.ptr) and `size` (s.size), which counts units of 8 bytes, the header among
-- them. The contents of blocks are in a memory of bytes of its own. A loop whose fuel is used up has no
-- result.
mod Gap
mod Ring
mod Blocks
mod Insert
mod Search
mod Take
pub mod Grant
mod Place
mod Join
mod Above
mod Below
pub mod Release
pub mod RoundTrip
pub mod Init
pub mod Client
pub mod Limits
mod Contents
mod Tests
use prpl_hypervisor.Base.{
  ℕ, zero, suc, ◌+◌, ◌-◌, ◌*◌, ◌/◌, ◌%◌, ◌^◌, Bool, ◌&&◌, ◌||◌, Option, none, some, add32, sub32,
  ltb, leb, ◌==◌, if◌then◌else◌, bit_and,
}
use prpl_hypervisor.Machine.{store}
use prpl_hypervisor.Libc.{memset, memcpy}

-- The headers, and the static variables freep, sfreep and sfree.
pub record Heap : Type 0 where
  pub next : ℕ → ℕ
  pub size : ℕ → ℕ
  pub freep : ℕ
  pub sfreep : ℕ
  pub sfree_ptr : ℕ
  pub sfree_size : ℕ

-- `sizeof(mem_header)`
abbrev pub header : ℕ
header = 8

-- `p + n` for a pointer to headers.
abbrev pub advance : ℕ → ℕ → ℕ
advance p n = p + header * n

-- The units that `size` bytes and a header take.
unfoldable pub units : ℕ → ℕ
units size = add32 size (header - 1) / header + 1

-- `HeapInit`
unfoldable pub heap_init : ℕ → ℕ → Heap → Heap
unfolding units
heap_init heap len s =
    if s.freep == 0
    then record s {
      next = store s.next heap heap;
      size = store s.size heap (units len - 1);
      freep = heap;
      sfreep = heap;
      sfree_ptr = heap;
      sfree_size = units len - 1;
    }
    else record s {
      next = store s.next s.sfreep s.sfree_ptr;
      size = store s.size s.sfreep s.sfree_size;
      freep = s.sfreep;
    }

-- The body of malloc's loop for a block `p` that is large enough: the pointer that malloc returns.
unfoldable pub take_block : Heap → ℕ → ℕ → ℕ → Heap × ℕ
take_block s prevp p nunits =
    if s.size p == nunits
    then (record s { next = store s.next prevp (s.next p); freep = prevp }, advance p 1)
    else let left : ℕ = s.size p - nunits in
      (
        record s { size = store (store s.size p left) (advance p left) nunits; freep = prevp },
        advance (advance p left) 1,
      )

-- The loop of `malloc`.
unfoldable pub search_block : ℕ → Heap → ℕ → ℕ → ℕ → Option (Heap × ℕ)
unfolding take_block
search_block zero s prevp p nunits = none
search_block (suc fuel) s prevp p nunits =
    let rest = search_block fuel s p (s.next p) nunits in
    if leb nunits (s.size p)
    then some (take_block s prevp p nunits)
    else if p == s.freep
    then some (s, 0)
    else rest

-- `malloc`
unfoldable pub malloc : ℕ → ℕ → Heap → Option (Heap × ℕ)
unfolding units search_block
malloc fuel size s =
    if s.freep == 0 then some (s, 0) else search_block fuel s s.freep (s.next s.freep) (units size)

-- The condition on which the loop of `free` ends, by its test or by the break.
unfoldable pub is_place : (ℕ → ℕ) → ℕ → ℕ → Bool
is_place next bp p =
    (ltb p bp && ltb bp (next p)) || (leb (next p) p && (ltb p bp || ltb bp (next p)))

-- The loop of `free`.
unfoldable pub find_place : ℕ → (ℕ → ℕ) → ℕ → ℕ → Option ℕ
unfolding is_place
find_place zero next bp p = none
find_place (suc fuel) next bp p =
    let rest = find_place fuel next bp (next p) in if is_place next bp p then some p else rest

-- `free` behind its loop: the block joins the one above it, or points to it;
unfoldable pub join_above : Heap → ℕ → ℕ → Heap
join_above s bp p =
    if advance bp (s.size bp) == s.next p
    then record s {
      size = store s.size bp (add32 (s.size bp) (s.size (s.next p)));
      next = store s.next bp (s.next (s.next p));
    }
    else record s { next = store s.next bp (s.next p) }

-- then the block below joins it, or points to it.
unfoldable pub join_below : Heap → ℕ → ℕ → Heap
join_below s bp p =
    if advance p (s.size p) == bp
    then record s {
      size = store s.size p (add32 (s.size p) (s.size bp));
      next = store s.next p (s.next bp);
      freep = p;
    }
    else record s { next = store s.next p bp; freep = p }

unfoldable pub insert_block : Option ℕ → Heap → ℕ → Option Heap
unfolding join_above join_below
insert_block none s bp = none
insert_block (some p) s bp = some (join_below (join_above s bp p) bp p)

-- `free`
unfoldable pub free : ℕ → ℕ → Heap → Option Heap
unfolding find_place insert_block
free fuel ptr s =
    let bp : ℕ = sub32 ptr header in insert_block (find_place fuel s.next bp s.freep) s bp

-- `calloc`
fill_block : Option (Heap × ℕ) → (ℕ → ℕ) → ℕ → Option (Heap × (ℕ → ℕ) × ℕ)
unfolding memset
fill_block none m bytes = none
fill_block (some (s, buf)) m bytes =
    some (s, (if buf == 0 then m else (memset m buf 0 bytes).0), buf)

unfoldable pub calloc : ℕ → ℕ → ℕ → Heap → (ℕ → ℕ) → Option (Heap × (ℕ → ℕ) × ℕ)
unfolding malloc fill_block
calloc fuel qty type_size s m =
    let bytes : ℕ = (qty * type_size) % 2 ^ 32 in fill_block (malloc fuel bytes s) m bytes

-- `realloc`
given : Option (Heap × ℕ) → (ℕ → ℕ) → Option (Heap × (ℕ → ℕ) × ℕ)
given none m = none
given (some (s, buf)) m = some (s, m, buf)

moved : Option Heap → (ℕ → ℕ) → ℕ → Option (Heap × (ℕ → ℕ) × ℕ)
moved none m buf = none
moved (some s) m buf = some (s, m, buf)

move_block : ℕ → Option (Heap × ℕ) → (ℕ → ℕ) → ℕ → ℕ → Option (Heap × (ℕ → ℕ) × ℕ)
unfolding free memcpy moved
move_block fuel none m ptr size = none
move_block fuel (some (s, buf)) m ptr size =
    if buf == 0 then some (s, m, buf) else moved (free fuel ptr s) (memcpy m buf ptr size).0 buf

unfoldable pub realloc : ℕ → ℕ → ℕ → Heap → (ℕ → ℕ) → Option (Heap × (ℕ → ℕ) × ℕ)
unfolding malloc free move_block moved given
realloc fuel ptr size s m =
    if ptr == 0
    then given (malloc fuel size s) m
    else if size == 0
    then moved (free fuel ptr s) m 0
    else move_block fuel (malloc fuel size s) m ptr size

-- `init_mem`: the heap from the addresses of the linker's symbols.
unfoldable pub init_mem : ℕ → ℕ → Heap → Heap
unfolding heap_init
init_mem heap_start heap_size s =
    heap_init (bit_and (add32 heap_start 8) 0xFFFFFFFC) (bit_and (sub32 heap_size 8) 0xFFFFFFFC) s
