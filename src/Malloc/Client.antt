-- ===== src/Malloc/Client.antt =====
-- Any sequence of calls: the heap and the blocks that its clients hold.
use prpl_hypervisor.Base.{
  ℕ, ◌+◌, ◌-◌, ◌^◌, ◌≤◌, ◌≡◌, ◌≢◌, refl, sym, ap, ◌∙◌, subst, inl, inr, arith, List, [], ◌∷◌, ◌++◌,
  In, In-append, In-append_left, In-append_right, Distinct, Distinct-swap, In-swap, length, Option,
  some,
}
use prpl_hypervisor.Malloc.{Heap, advance, units, heap_init, malloc, free}
use prpl_hypervisor.Malloc.Blocks.{IsFreeList, Covers, Within}
use prpl_hypervisor.Malloc.Grant.{Divisible, Granted, malloc_lem, units-ne}
use prpl_hypervisor.Malloc.Release.{IsUsed, NotBelow, Released, free_lem}
use prpl_hypervisor.Malloc.RoundTrip.{Granted-IsUsed}
use prpl_hypervisor.Malloc.Init.{IsSaved, Origin, heap_init_lem}

-- The run of a call with enough fuel: the loop ends, and more fuel gives the same.
abbrev pub Runs {ℓ} : {A : Type ℓ} → (ℕ → Option A) → A → Type ℓ
Runs run a = (enough : ℕ) × ((fuel : ℕ) → enough ≤ fuel → run fuel ≡ some a)

-- A call changes the heap and the blocks that are held. malloc does not meet a single block that fits
-- exactly, and free does not meet a block directly below the only free one. HeapInit takes all back.
pub data Call : Heap → List ℕ → Heap → List ℕ → Type 0 where
  grant :
      {s s' : Heap} {us : List ℕ} (size b : ℕ)
      → Divisible s.next s.size s.freep (units size)
      → Runs (λ fuel. malloc fuel size s) (s', advance b 1)
      → Call s us s' (b ∷ us)
  refuse :
      {s s' : Heap} {us : List ℕ} (size : ℕ)
      → Divisible s.next s.size s.freep (units size)
      → Runs (λ fuel. malloc fuel size s) (s', 0)
      → Call s us s' us
  release :
      {s s' : Heap} (vs ws : List ℕ) (b : ℕ)
      → NotBelow s.next s.size s.freep b
      → Runs (λ fuel. free fuel (advance b 1) s) s'
      → Call s (vs ++ b ∷ ws) s' (vs ++ ws)
  reset : {s : Heap} {us : List ℕ} (start len : ℕ) → Call s us (heap_init start len s) []

pub data Calls (s : Heap) : Heap → List ℕ → Type 0 where
  none_yet : Calls s s []
  more : {t u : Heap} {us vs : List ℕ} → Calls s t us → Call t us u vs → Calls s u vs

-- The free list is valid; the blocks held are in use, and no two of them share a byte.
pub record IsSound (heap n : ℕ) (s : Heap) (us : List ℕ) : Type 0 where
  pub rest : List ℕ
  pub valid : IsFreeList s.next s.size (s.freep ∷ rest)
  pub used : (b : ℕ) → In b us → IsUsed s.size (s.freep ∷ rest) b
  pub apart :
      (b c x : ℕ) → In b us → In c us → b ≢ c → Within b (s.size b) x → ¬ Within c (s.size c) x
  pub distinct : Distinct us
  pub saved : IsSaved heap n s

some-eq {ℓ} : {A : Type ℓ} (a b : A) → some a ≡ some b → a ≡ b
some-eq a b e = cc

-- A block in use keeps its header when the heap changes elsewhere.
IsUsed-kept :
    (size size' : ℕ → ℕ) (rs rs' : List ℕ) (c : ℕ)
    → IsUsed size rs c
    → size' c ≡ size c
    → ((x : ℕ) → Within c (size c) x → ¬ Covers size' rs' x)
    → IsUsed size' rs' c
IsUsed-kept size size' rs rs' c u e h =
    subst
      (λ k.
        (c ≢ 0)
        × (k ≢ 0)
        × (advance c k ≤ 2 ^ 32)
        × ((x : ℕ) → Within c k x → ¬ Covers size' rs' x))
      (sym e) (u.0, u.1, u.2, h)

-- The first byte of a block in use.
IsUsed-free : (size : ℕ → ℕ) (rs : List ℕ) (c : ℕ) → IsUsed size rs c → ¬ Covers size rs c
IsUsed-free size rs c u = u.3 c (omega arith, omega (arith, u.1))

module _ (heap n : ℕ) (s s' : Heap) (us : List ℕ) (h : IsSound heap n s us) where
  IsSound-Granted :
      (size b : ℕ) (rs : List ℕ)
      → Granted s (s.freep ∷ h.rest) (units size) s' b rs
      → IsSound heap n s' (b ∷ us)
  IsSound-Granted size b rs g = record {
    rest = rs;
    valid = g.0;
    used = used;
    apart = apart;
    distinct = (fresh, h.distinct);
    saved = (g.4.0 ∙ h.saved.0, g.4.1 ∙ h.saved.1, g.4.2 ∙ h.saved.2);
  }
    where
      kept : (c : ℕ) → In c us → s'.size c ≡ s.size c
      kept c i = g.6 c (IsUsed-free s.size (s.freep ∷ h.rest) c (h.used c i))

      fresh : ¬ In b us
      fresh i =
          IsUsed-free s.size (s.freep ∷ h.rest) b (h.used b i)
            (g.3.2 b (omega arith, let k = units-ne size in omega arith))

      used : (c : ℕ) → In c (b ∷ us) → IsUsed s'.size (s'.freep ∷ rs) c
      used c (inl e) =
          subst (λ y. IsUsed s'.size (s'.freep ∷ rs) y) (sym e)
            (Granted-IsUsed s s' (s.freep ∷ h.rest) rs (units size) b h.valid (units-ne size) g)
      used c (inr i) =
          IsUsed-kept s.size s'.size (s.freep ∷ h.rest) (s'.freep ∷ rs) c (h.used c i) (kept c i)
            (λ x w k. (h.used c i).3 x w (g.3.1 x k).0)

      new_apart : (c x : ℕ) → In c us → Within b (s'.size b) x → ¬ Within c (s'.size c) x
      new_apart c x i w k =
          (h.used c i).3 x (subst (λ m. Within c m x) (kept c i) k)
            (g.3.2 x (subst (λ m. Within b m x) g.1 w))

      apart :
          (a c x : ℕ)
          → In a (b ∷ us)
          → In c (b ∷ us)
          → a ≢ c
          → Within a (s'.size a) x
          → ¬ Within c (s'.size c) x
      apart a c x (inl e) (inl k) m w z = absurd (m (e ∙ sym k))
      apart a c x (inl e) (inr j) m w z =
          new_apart c x j (subst (λ y. Within y (s'.size y) x) e w) z
      apart a c x (inr i) (inl k) m w z =
          new_apart a x i (subst (λ y. Within y (s'.size y) x) k z) w
      apart a c x (inr i) (inr j) m w z =
          h.apart a c x i j m (subst (λ k. Within a k x) (kept a i) w)
            (subst (λ k. Within c k x) (kept c j) z)

module _ (heap n : ℕ) (s s' : Heap) (vs ws : List ℕ) (b : ℕ)
    (h : IsSound heap n s (vs ++ b ∷ ws)) where
  IsSound-Released :
      (rs : List ℕ) → Released s (s.freep ∷ h.rest) b s' rs → IsSound heap n s' (vs ++ ws)
  IsSound-Released rs g = record {
    rest = rs;
    valid = g.0;
    used = λ c i.
        IsUsed-kept s.size s'.size (s.freep ∷ h.rest) (s'.freep ∷ rs) c (h.used c (up c i))
          (kept c i)
          (λ x w k. elim (g.1.0 x k) [
            | inl m ↦ (h.used c (up c i)).3 x w m
            | inr m ↦ h.apart b c x at (up c i) (λ e. other c i (sym e)) m w
          ]);
    apart = λ a c x i j m w z.
        h.apart a c x (up a i) (up c j) m (subst (λ k. Within a k x) (kept a i) w)
          (subst (λ k. Within c k x) (kept c j) z);
    distinct = Distinct-swap ws vs rotated.1;
    saved = (g.2.0 ∙ h.saved.0, g.2.1 ∙ h.saved.1, g.2.2 ∙ h.saved.2);
  }
    where
      rotated : Distinct (b ∷ ws ++ vs)
      rotated = Distinct-swap vs (b ∷ ws) h.distinct

      at : In b (vs ++ b ∷ ws)
      at = In-append_right vs (b ∷ ws) b (inl refl)

      up : (c : ℕ) → In c (vs ++ ws) → In c (vs ++ b ∷ ws)
      up c i = elim (In-append vs ws c i) [
        | inl j ↦ In-append_left vs (b ∷ ws) c j
        | inr j ↦ In-append_right vs (b ∷ ws) c (inr j)
      ]

      other : (c : ℕ) → In c (vs ++ ws) → c ≢ b
      other c i e = rotated.0 (In-swap vs ws b (subst (λ y. In y (vs ++ ws)) e i))

      kept : (c : ℕ) → In c (vs ++ ws) → s'.size c ≡ s.size c
      kept c i = g.3 c (other c i) (IsUsed-free s.size (s.freep ∷ h.rest) c (h.used c (up c i)))

-- HeapInit is called for `n` units at `heap`, which end within memory.
abbrev pub IsPlace : ℕ → ℕ → Type 0
IsPlace heap n = (heap ≢ 0) × (n ≢ 0) × (advance heap n ≤ 2 ^ 32)

IsSound-started :
    (heap n start len : ℕ) (s : Heap)
    → IsPlace heap n
    → Origin heap n start len s
    → IsSound heap n (heap_init start len s) []
IsSound-started heap n start len s p o =
    let r = heap_init_lem heap n start len s p.0 p.1 p.2 o in
    record {
      rest = [];
      valid = r.0;
      used = λ b i. absurd i;
      apart = λ b c x i. absurd i;
      distinct = tt;
      saved = r.3;
    }

-- Each call keeps the heap and the blocks sound.
pub Call-IsSound :
    (heap n : ℕ) (s s' : Heap) (us us' : List ℕ)
    → IsPlace heap n
    → Call s us s' us'
    → IsSound heap n s us
    → IsSound heap n s' us'
Call-IsSound heap n s s' us us' p (grant size b d r) h =
    let fuel : ℕ = r.0 + length h.rest + 1 in
    let e = r.1 fuel (omega arith) in
    elim (malloc_lem fuel size s h.rest h.valid d (omega arith)) [
      | inl k ↦
          let z = ap (λ t. t.1) (some-eq (s', advance b 1) (s, 0) (sym e ∙ k.0)) in
          absurd (omega (arith, z))
      | inr (t, c, rs, k, g) ↦
          let q = some-eq (t, advance c 1) (s', advance b 1) (sym k ∙ e) in
          let same : c ≡ b = omega (arith, ap (λ y. y.1) q) in
          subst (λ y. IsSound heap n y (b ∷ us)) (ap (λ y. y.0) q)
            (subst (λ y. IsSound heap n t (y ∷ us)) same
              (IsSound-Granted heap n s t us h size c rs g))
    ]
Call-IsSound heap n s s' us us' p (refuse size d r) h =
    let fuel : ℕ = r.0 + length h.rest + 1 in
    let e = r.1 fuel (omega arith) in
    elim (malloc_lem fuel size s h.rest h.valid d (omega arith)) [
      | inl k ↦
          subst (λ y. IsSound heap n y us) (ap (λ t. t.0) (some-eq (s, 0) (s', 0) (sym k.0 ∙ e))) h
      | inr (t, c, rs, k, g) ↦
          let z = ap (λ y. y.1) (some-eq (t, advance c 1) (s', 0) (sym k ∙ e)) in
          absurd (omega (arith, z))
    ]
Call-IsSound heap n s s' us us' p (release vs ws b d r) h =
    let fuel : ℕ = r.0 + 2 ^ 32 in
    let (t, rs, k, g) =
      free_lem fuel b s h.rest h.valid (h.used b (In-append_right vs (b ∷ ws) b (inl refl))) d
        (omega arith) in
    subst (λ y. IsSound heap n y (vs ++ ws)) (some-eq t s' (sym k ∙ r.1 fuel (omega arith)))
      (IsSound-Released heap n s t vs ws b h rs g)
Call-IsSound heap n s s' us us' p (reset start len) h =
    IsSound-started heap n start len s p (inr ((h.valid.bounds s.freep (inl refl)).0, h.saved))

-- From the first HeapInit on, whatever sequence of calls: the free list is valid, the blocks held are in
-- use and of different addresses, and no byte belongs to two of them.
pub Calls-IsSound :
    (heap n len : ℕ) (s s' : Heap) (us : List ℕ)
    → IsPlace heap n
    → s.freep ≡ 0
    → units len - 1 ≡ n
    → Calls (heap_init heap len s) s' us
    → IsSound heap n s' us
Calls-IsSound heap n len s s' us p z e none_yet =
    IsSound-started heap n heap len s p (inl (z, refl, e))
Calls-IsSound heap n len s s' us p z e (more {t} {us = vs} c d) =
    Call-IsSound heap n t s' vs us p d (Calls-IsSound heap n len s t vs p z e c)
