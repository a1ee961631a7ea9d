-- ===== src/Malloc/Above.antt =====
-- The first step of `free` when the block above is free too.
use prpl_hypervisor.Base.{
  ℕ, ◌+◌, ◌^◌, ◌≤◌, ◌<◌, ◌≡◌, ◌≢◌, refl, sym, ap, ◌∙◌, subst, ◌⊎◌, inl, inr, arith, List, ◌∷◌, In,
  ==-ne, ==-refl, if◌then◌else◌, add32, true, ◌==◌,
}
use native.Mathlib.Decide.{dec_lt}
use prpl_hypervisor.Machine.{store}
use prpl_hypervisor.Malloc.{Heap, advance, join_above}
use prpl_hypervisor.Malloc.Ring.{Ring-In}
use prpl_hypervisor.Malloc.Gap.{gap}
use prpl_hypervisor.Malloc.Blocks.{IsFreeList, IsFreeList-agree, IsFreeList-unlink, Covers, Within}
use prpl_hypervisor.Malloc.Join
use prpl_hypervisor.Malloc.Join.{IsReady, Bytes, SameBytes}

module _ (s : Heap) (q b t : ℕ) (us : List ℕ) (v : IsFreeList s.next s.size (q ∷ t ∷ us))
    (some_block : (b ≢ 0) × (s.size b ≢ 0) × (advance b (s.size b) ≤ 2 ^ 32))
    (away : (x : ℕ) → Within b (s.size b) x → ¬ Covers s.size (q ∷ t ∷ us) x)
    (near : gap q b < gap q (s.next q)) (e : advance b (s.size b) ≡ s.next q) where
  out : ¬ In b (q ∷ t ∷ us)
  out = Join.out s q b (t ∷ us) v some_block away near

  -- The sizes and the links that the step leaves.
  abbrev size' : ℕ → ℕ
  size' = store s.size b (add32 (s.size b) (s.size (s.next q)))

  abbrev next' : ℕ → ℕ
  next' = store s.next b (s.next (s.next q))

  t_bounds : (t ≢ 0) × (s.size t ≢ 0) × (advance t (s.size t) ≤ 2 ^ 32)
  t_bounds = v.bounds t (inr (inl refl))

  above_t : advance b (s.size b) ≡ t
  above_t = e ∙ v.ring.0

  sum : size' b ≡ s.size b + s.size t
  sum =
      ap (λ c. if c then add32 (s.size b) (s.size (s.next q)) else s.size b) (==-refl b)
      ∙ ap (λ n. add32 (s.size b) (s.size n)) v.ring.0
      ∙ omega (arith, t_bounds.2, above_t, some_block.2)

  size_kept : (a : ℕ) → In a (q ∷ t ∷ us) → size' a ≡ s.size a
  size_kept a i =
      ap (λ c. if c then add32 (s.size b) (s.size (s.next q)) else s.size a)
        (==-ne a b (λ k. out (subst (λ y. In y (q ∷ t ∷ us)) k i)))

  successor : next' b ≡ s.next (s.next q)
  successor = ap (λ c. if c then s.next (s.next q) else s.next b) (==-refl b)

  keep : (a : ℕ) → In a (q ∷ us) → In a (q ∷ t ∷ us)
  keep a (inl k) = inl k
  keep a (inr i) = inr (inr i)

  not_t : (a : ℕ) → In a (q ∷ us) → t ≢ a
  not_t a (inl k) h = v.distinct.0 (inl (sym k ∙ sym h))
  not_t a (inr i) h = v.distinct.1.0 (subst (λ y. In y us) (sym h) i)

  unlinked : IsFreeList (store next' q (next' b)) s.size (q ∷ us)
  unlinked =
      IsFreeList-unlink s.next (store next' q (next' b)) s.size q t us v
        (ap (λ c. if c then next' b else next' q) (==-refl q) ∙ successor ∙ ap s.next v.ring.0)
        (λ a i.
          away_store a (λ k. v.distinct.0 (inr (subst (λ y. In y us) k i)))
            (λ k. out (inr (inr (subst (λ y. In y us) k i)))))
    where
      away_store : (a : ℕ) → a ≢ q → a ≢ b → store next' q (next' b) a ≡ s.next a
      away_store a n m =
          ap (λ c. if c then next' b else next' a) (==-ne a q n)
          ∙ ap (λ c. if c then s.next (s.next q) else s.next a) (==-ne a b m)

  -- Behind the block above all others are higher than its end.
  beyond : (a : ℕ) → In a (q ∷ us) → b < a → advance b (size' b) < a
  beyond a i l =
      let h = Join.above s q b (t ∷ us) v some_block away near a (keep a i) l in
      let k =
        v.apart t a (inr (inl refl)) (keep a i)
          (let n = not_t a i in omega (arith, h.1, v.ring.0)) in
      omega (arith, sum, above_t)

  cleared :
      (a : ℕ)
      → In a us
      → ((a < b) × (advance a (size' a) < b)) ⊎ ((b < a) × (advance b (size' b) < a))
  cleared a i = elim (Join.apart s q b (t ∷ us) v some_block away near a (inr (inr i))) [
    | inl h ↦ inl (
      h.0,
      subst (λ n. advance a n < b) (sym (size_kept a (inr (inr i))))
          (Join.clear_below s q b (t ∷ us) v some_block away near a (inr i) h.0),
    )
    | inr h ↦ inr (h.0, beyond a (inr i) h.0)
  ]

  bytes : SameBytes (Bytes s.size (q ∷ t ∷ us) b) (Bytes size' (q ∷ us) b)
  bytes = (joined, parted)
    where
      same : (a x : ℕ) → In a (q ∷ us) → x < advance a (s.size a) → x < advance a (size' a)
      same a x i = subst (λ n. x < advance a n) (sym (size_kept a (keep a i)))

      joined : (x : ℕ) → Bytes s.size (q ∷ t ∷ us) b x → Bytes size' (q ∷ us) b x
      joined x (inr w) = inr (w.0, omega (arith, sum, w.1))
      joined x (inl (a, inl k, l, u)) = inl (a, inl k, l, same a x (inl k) u)
      joined x (inl (a, inr (inr i), l, u)) = inl (a, inr i, l, same a x (inr i) u)
      joined x (inl (a, inr (inl k), l, u)) =
          let w : Within t (s.size t) x = subst (λ y. Within y (s.size y) x) k (l, u) in
          inr (omega (arith, w.0, above_t), omega (arith, w.1, sum, above_t))

      parted : (x : ℕ) → Bytes size' (q ∷ us) b x → Bytes s.size (q ∷ t ∷ us) b x
      parted x (inl (a, i, l, u)) =
          inl (a, keep a i, l, subst (λ n. x < advance a n) (size_kept a (keep a i)) u)
      parted x (inr w) = elim (dec_lt x (advance b (s.size b))) [
        | yes h ↦ inr (w.0, h)
        | no h ↦
            inl (t, inr (inl refl), omega (arith, above_t, h), omega (arith, w.1, sum, above_t))
      ]

  touch : (advance b (s.size b) == s.next q) ≡ true
  touch = ap (λ n. n == s.next q) e ∙ ==-refl (s.next q)

  -- The block takes in the one above and points to the successor of that.
  pub IsReady-joined :
      let s' = join_above s b q in
      IsReady s'.next s'.size q b us
      × SameBytes (Bytes s.size (q ∷ t ∷ us) b) (Bytes s'.size (q ∷ us) b)
  unfolding join_above
  IsReady-joined = rw touch (
    record {
      valid =
          IsFreeList-agree (store next' q (next' b)) (store next' q (next' b)) s.size size' (q ∷ us)
            unlinked (λ a i. refl) (λ a i. size_kept a (keep a i));
      some_block =
          (some_block.0, omega (arith, sum, some_block.1), omega (arith, sum, above_t, t_bounds.2));
      near =
          let n_in : In (s.next q) (q ∷ t ∷ us) = Ring-In (q ∷ t ∷ us) s.next q v.ring (inl refl) in
          let far : gap q (s.next q) ≤ gap q (s.next (s.next q)) =
            v.order q (s.next (s.next q)) (inl refl)
              (Ring-In (q ∷ t ∷ us) s.next (s.next q) v.ring n_in) in
          subst (λ n. gap q b < gap q n) (sym successor) (omega arith);
      first = elim (Join.apart s q b (t ∷ us) v some_block away near q (inl refl)) [
        | inl h ↦ inl (h.0, subst (λ n. advance q n ≤ b) (sym (size_kept q (inl refl))) h.1)
        | inr h ↦ inr (h.0, beyond q (inl refl) h.0)
      ];
      others = cleared;
    },
    bytes,
  )
