-- ===== src/Malloc/Grant.antt =====
-- What `malloc` returns and leaves.
use prpl_hypervisor.Base.{
  ℕ, ◌-◌, ◌≤◌, ◌<◌, ◌≡◌, ◌≢◌, refl, sym, ap, ◌∙◌, subst, ◌⊎◌, inl, inr, arith, List, [], ◌∷◌,
  append-nil, In, length, some, ==-ne, ==-refl, if◌then◌else◌,
}
use native.Mathlib.Decide.{ℕ_discrete}
use prpl_hypervisor.Machine.{store}
use prpl_hypervisor.Malloc.{Heap, take_block, advance, units, search_block, malloc}
use prpl_hypervisor.Malloc.Ring.{Ring-In}
use prpl_hypervisor.Malloc.Blocks.{IsFreeList, IsFreeList-unlink, Covers}
use prpl_hypervisor.Malloc.Search.{SameMembers, Found, search_block_lem}
use prpl_hypervisor.Malloc.Take.{IsTaken, IsTaken-unlink, IsFreeList-cut, IsTaken-cut, cut, cut_new}

-- The values with which HeapInit resets the heap.
abbrev pub SameSaved : Heap → Heap → Type 0
SameSaved s s' =
    (s'.sfreep ≡ s.sfreep) × (s'.sfree_ptr ≡ s.sfree_ptr) × (s'.sfree_size ≡ s.sfree_size)

-- The heap after `n` units were taken from it: its free list from freep on, and the block, which no
-- free block follows at once; headers in use keep their sizes.
abbrev pub Granted : Heap → List ℕ → ℕ → Heap → ℕ → List ℕ → Type 0
Granted s rs n s' q us =
    IsFreeList s'.next s'.size (s'.freep ∷ us)
    × (s'.size q ≡ n)
    × (q ≢ 0)
    × IsTaken s.size rs s'.size (s'.freep ∷ us) q n
    × SameSaved s s'
    × ((a : ℕ) → In a (s'.freep ∷ us) → advance q n ≢ a)
    × ((y : ℕ) → (¬ Covers s.size rs y) → s'.size y ≡ s.size y)

Covers-same :
    (size : ℕ → ℕ) (xs ys : List ℕ) (x : ℕ)
    → SameMembers xs ys
    → Covers size xs x
    → Covers size ys x
Covers-same size xs ys x h c = (c.0, h.0 c.0 c.1, c.2, c.3)

IsTaken-same :
    (size size' : ℕ → ℕ) (xs ys rs' : List ℕ) (q n : ℕ)
    → SameMembers xs ys
    → IsTaken size xs size' rs' q n
    → IsTaken size ys size' rs' q n
IsTaken-same size size' xs ys rs' q n h t = (
  λ x c. t.0 x (Covers-same size ys xs x (h.1, h.0) c),
  λ x c. let r = t.1 x c in (Covers-same size xs ys x h r.0, r.1),
  λ x w. Covers-same size xs ys x h (t.2 x w),
)

-- A block that fits exactly leaves the ring.
take_exact :
    (s : Heap) (q n : ℕ) (ts : List ℕ)
    → IsFreeList s.next s.size (q ∷ ts)
    → s.next q ≢ q
    → s.size (s.next q) ≡ n
    → n ≢ 0
    → (s' : Heap) × (us : List ℕ) × (take_block s q (s.next q) n ≡ (s', advance (s.next q) 1))
      × Granted s (q ∷ ts) n s' (s.next q) us
unfolding take_block
take_exact s q n [] v d e some_units = absurd (d v.ring)
take_exact s q n (t ∷ us) v d e some_units =
    let s' : Heap = record s { next = store s.next q (s.next (s.next q)); freep = q } in
    let p_in : In (s.next q) (q ∷ t ∷ us) = Ring-In (q ∷ t ∷ us) s.next q v.ring (inl refl) in
    let first : s'.next q ≡ s.next t =
      ap (λ b. if b then s.next (s.next q) else s.next q) (==-refl q) ∙ ap s.next v.ring.0 in
    let others : (a : ℕ) → In a us → s'.next a ≡ s.next a = λ a i.
      ap (λ b. if b then s.next (s.next q) else s.next a)
        (==-ne a q (λ k. v.distinct.0 (inr (subst (λ y. In y us) k i)))) in
    (
      s',
      us,
      rw (e, ==-refl n) refl,
      (
        IsFreeList-unlink s.next s'.next s.size q t us v first others,
        e,
        (v.bounds (s.next q) p_in).0,
        subst (λ p. IsTaken s.size (q ∷ t ∷ us) s.size (q ∷ us) p n) (sym v.ring.0)
            (subst (λ k. IsTaken s.size (q ∷ t ∷ us) s.size (q ∷ us) t k)
              (ap s.size (sym v.ring.0) ∙ e) (IsTaken-unlink s.next s.size q t us v)),
        (refl, refl, refl),
        λ a i k.
            let p_lt : t < a = omega (arith, e, v.ring.0, some_units) in
            let h = v.apart t a (inr (inl refl)) (keep a i) p_lt in
            absurd (omega (arith, h, k, ap s.size v.ring.0, e, v.ring.0)),
        λ y c. refl,
      ),
    )
  where
    keep : (a : ℕ) → In a (q ∷ us) → In a (q ∷ t ∷ us)
    keep a (inl k) = inl k
    keep a (inr i) = inr (inr i)

-- From a larger block the last units are taken.
take_part :
    (s : Heap) (q n : ℕ) (ts : List ℕ)
    → IsFreeList s.next s.size (q ∷ ts)
    → n ≢ 0
    → n < s.size (s.next q)
    → let p = s.next q in
      let b = advance p (s.size p - n) in
      (s' : Heap) × (us : List ℕ) × (take_block s q p n ≡ (s', advance b 1))
      × Granted s (q ∷ ts) n s' b us
unfolding take_block
take_part s q n ts v some_units less =
    let p : ℕ = s.next q in
    let p_in : In p (q ∷ ts) = Ring-In (q ∷ ts) s.next q v.ring (inl refl) in
    let some_block = v.bounds p p_in in
    (
      record s { size = cut s.size p n; freep = q },
      ts,
      rw (==-ne (s.size p) n (λ e. absurd (omega arith))) refl,
      (
        IsFreeList-cut s.next s.size (q ∷ ts) p n v p_in some_units less,
        cut_new s.next s.size (q ∷ ts) p n v p_in some_units less,
        (λ e. absurd (omega arith)),
        IsTaken-cut s.next s.size (q ∷ ts) p n v p_in some_units less,
        (refl, refl, refl),
        λ a i k. let h = v.apart p a p_in i (omega arith) in absurd (omega arith),
        λ y c.
            cut_away y (λ k. c (p, p_in, omega arith, omega arith))
              (λ k. c (p, p_in, omega arith, omega arith)),
      ),
    )
  where
    cut_away :
        (y : ℕ)
        → y ≢ s.next q
        → y ≢ advance (s.next q) (s.size (s.next q) - n)
        → cut s.size (s.next q) n y ≡ s.size y
    cut_away y h k = ground (arith, h, k)

-- The loop does not take the only block as a whole.
abbrev pub Divisible : (ℕ → ℕ) → (ℕ → ℕ) → ℕ → ℕ → Type 0
Divisible next size p n = (next p ≢ p) ⊎ (size p ≢ n)

take_block_lem :
    (s : Heap) (q n : ℕ) (ts : List ℕ)
    → IsFreeList s.next s.size (q ∷ ts)
    → Divisible s.next s.size q n
    → n ≢ 0
    → n ≤ s.size (s.next q)
    → (s' : Heap) × (b : ℕ) × (us : List ℕ) × (take_block s q (s.next q) n ≡ (s', advance b 1))
      × Granted s (q ∷ ts) n s' b us
take_block_lem s q n ts v d some_units h = elim (ℕ_discrete (s.size (s.next q)) n) [
  | yes e ↦
      let alone : s.next q ≢ q = λ k. elim d [ inl m ↦ m k | inr m ↦ m (ap s.size (sym k) ∙ e) ] in
      let (s', us, eq, g) = take_exact s q n ts v alone e some_units in (s', s.next q, us, eq, g)
  | no m ↦
      let (s', us, eq, g) = take_part s q n ts v some_units (omega arith) in
      (s', advance (s.next q) (s.size (s.next q) - n), us, eq, g)
]

-- A ring of one block starts with it wherever it is read from.
Divisible-same :
    (s : Heap) (q n : ℕ) (ts us : List ℕ)
    → IsFreeList s.next s.size (q ∷ us)
    → SameMembers (q ∷ us) (s.freep ∷ ts)
    → Divisible s.next s.size s.freep n
    → Divisible s.next s.size q n
Divisible-same s q n ts (u ∷ us) v same d = inl (λ k. v.distinct.0 (inl (sym k ∙ v.ring.0)))
Divisible-same s q n ts [] v same d =
    subst (λ y. Divisible s.next s.size y n) (only (same.1 s.freep (inl refl))) d
  where
    only : In s.freep (q ∷ []) → s.freep ≡ q
    only (inl e) = e
    only (inr i) = absurd i

pub units-ne : (size : ℕ) → units size ≢ 0
unfolding units
units-ne size e = omega arith

-- On a valid free list, of which a single block does not fit exactly, malloc gets through. Either it
-- returns NULL and changes nothing, and every free block is smaller than the request with its header; or
-- it returns the address behind a header that holds the size of the block: the bytes of this block were
-- free, they and no others are not free any more, and the free list stays valid.
pub malloc_lem :
    (fuel size : ℕ) (s : Heap) (ts : List ℕ)
    → IsFreeList s.next s.size (s.freep ∷ ts)
    → Divisible s.next s.size s.freep (units size)
    → length ts < fuel
    → ((malloc fuel size s ≡ some (s, 0)) × ((a : ℕ) → In a (s.freep ∷ ts) → s.size a < units size))
      ⊎ ((s' : Heap) × (b : ℕ) × (us : List ℕ) × (malloc fuel size s ≡ some (s', advance b 1))
          × Granted s (s.freep ∷ ts) (units size) s' b us)
unfolding malloc
malloc_lem fuel size s ts v d f = elim (found v f) [
  | inl (e, small) ↦ inl (rw (==-ne s.freep 0 (v.bounds s.freep (inl refl)).0) e, small)
  | inr (q, us, e, w, large, same) ↦
      let (s', b, rs, eq, g) =
        take_block_lem s q (units size) us w (Divisible-same s q (units size) ts us w same d)
          (units-ne size) large in
      inr (
        s',
        b,
        rs,
        rw (==-ne s.freep 0 (v.bounds s.freep (inl refl)).0) (e ∙ ap some eq),
        (
          g.0,
          g.1,
          g.2,
          IsTaken-same s.size s'.size (q ∷ us) (s.freep ∷ ts) (s'.freep ∷ rs) b (units size) same
              g.3,
          g.4,
          g.5,
          λ y c. g.6 y (λ k. c (Covers-same s.size (q ∷ us) (s.freep ∷ ts) y same k)),
        ),
      )
]
  where
    only : (a : ℕ) → In a (s.freep ∷ []) → a ≢ s.freep → ⊥
    only a (inl e) n = n e
    only a (inr i) n = absurd i

    found :
        IsFreeList s.next s.size (s.freep ∷ ts)
        → length ts < fuel
        → Found s
            (s.freep ∷ ts)
            (units size)
            (search_block fuel s s.freep (s.next s.freep) (units size))
    found v f =
        search_block_lem ts [] (s.freep ∷ ts) fuel s s.freep (units size)
          (subst (λ us. IsFreeList s.next s.size (s.freep ∷ us)) (sym (append-nil ts)) v) v.ring
          (λ a i n. absurd (only a i n)) (inl refl)
          (
            (λ a i. subst (λ us. In a (s.freep ∷ us)) (append-nil ts) i),
            (λ a i. subst (λ us. In a (s.freep ∷ us)) (sym (append-nil ts)) i),
          )
          f
