-- ===== src/Sharing/Kept.antt =====
-- What the driver keeps: each buffer counts the places of the rings that hold it.
use prpl_hypervisor.Base.{
  ℕ, zero, suc, ◌+◌, ◌≤◌, ◌<◌, ◌≡◌, ◌≢◌, refl, sym, ap, ◌∙◌, subst, ◌⊎◌, inl, inr, arith, [], ◌∷◌,
  ==-ne, ==-refl, ◌==◌, if◌then◌else◌, In, Bool, true, false, Bool-cases, negative, add32, sub32,
}
use native.Mathlib.Decide.{ℕ_discrete}
use prpl_hypervisor.Machine.{store}
use prpl_hypervisor.Sharing.{Net, first_index, get_free_buffer, push, pop}
use prpl_hypervisor.Sharing.Rings.{
  waiting, pending, IsRing, pushed, popped, pending-pushed, waiting-pushed, pushed-IsRing, oldest,
  pending-popped, popped-IsRing,
}
use prpl_hypervisor.Sharing.Counts.{
  occurs, occurs-append, occurs-In, refs, refs-store, refs_bound, refs_at,
}

pub record IsShared (n : Net) : Type 0 where
  pub few : n.vm_counter ≤ 2
  pub rings : (i : ℕ) → i < n.vm_counter → IsRing (n.vms i)
  pub counted : (k : ℕ) → k < 10 → (n.buf k).used ≡ refs n.vm_counter n.vms k

-- Each ring has room for `r` buffers more; a ring of ten would look empty.
abbrev pub HasRoom : Net → ℕ → Type 0
HasRoom n r = (i : ℕ) → i < n.vm_counter → waiting (n.vms i) + r ≤ 9

-- The first index that passes the test, or -1 if none does.
pub first_index_lem :
    (test : ℕ → Bool) (left i : ℕ)
    → ((first_index test left i ≡ negative 1) × ((a : ℕ) → i ≤ a → a < i + left → test a ≡ false))
      ⊎ ((i ≤ first_index test left i)
          × (first_index test left i < i + left)
          × (test (first_index test left i) ≡ true))
unfolding first_index
first_index_lem test zero i = inl (refl, λ a h l. absurd (omega arith))
first_index_lem test (suc left) i = elim (Bool-cases (test i)) [
  | inl t ↦ inr (rw t (omega arith), rw t (omega arith), rw t t)
  | inr t ↦ elim (first_index_lem test left (i + 1)) [
    | inl h ↦ inl (
      rw t h.0,
      λ a l m. elim (ℕ_discrete a i) [
        | yes e ↦ ap test e ∙ t
        | no d ↦ h.1 a (omega arith) (omega arith)
      ],
    )
    | inr h ↦ inr (rw t (omega (arith, h.0)), rw t (omega (arith, h.1)), rw t h.2)
  ]
]

pub store_at : {A : Type 0} (f : ℕ → A) (p : ℕ) (v : A) → store f p v p ≡ v
store_at f p v = ap (λ b. if b then v else f p) (==-refl p)

pub store_off : {A : Type 0} (f : ℕ → A) (p q : ℕ) (v : A) → q ≢ p → store f p v q ≡ f q
store_off f p q v n = ap (λ b. if b then v else f q) (==-ne q p n)

-- A property of the rings when one of them changes.
rings_store :
    {A : Type 0} (P : A → Type 0) (f : ℕ → A) (n p : ℕ) (v : A)
    → ((i : ℕ) → i < n → P (f i))
    → P v
    → (i : ℕ) → i < n
    → P (store f p v i)
rings_store P f n p v h k i l = elim (ℕ_discrete i p) [
  | yes e ↦ subst (λ y. P (store f p v y)) (sym e) (subst P (sym (store_at f p v)) k)
  | no d ↦ subst P (sym (store_off f p i v d)) (h i l)
]

module _ (n : Net) (i k : ℕ) (h : IsShared n) (l : i < n.vm_counter) (b : k < 10)
    (room : waiting (n.vms i) < 9) where
  -- A buffer enters a ring and counts it.
  pub push-IsShared : IsShared (push n i k)
  unfolding push
  push-IsShared = record {
    few = h.few;
    rings =
        rings_store IsRing n.vms n.vm_counter i (pushed (n.vms i) k) h.rings
          (pushed-IsRing (n.vms i) (h.rings i l) k room b);
    counted = count;
  }
    where
      more :
          (a : ℕ)
          → occurs a (pending (pushed (n.vms i) k))
            ≡ occurs a (pending (n.vms i)) + (if k == a then 1 else 0)
      more a =
          ap (occurs a) (pending-pushed (n.vms i) (h.rings i l) k room)
          ∙ occurs-append a (pending (n.vms i)) (k ∷ [])
          ∙ omega arith

      count :
          (a : ℕ)
          → a < 10
          → (store n.buf k (record (n.buf k) { used = add32 (n.buf k).used 1 }) a).used
            ≡ refs n.vm_counter (store n.vms i (pushed (n.vms i) k)) a
      count a m =
          let r = refs-store n.vm_counter i n.vms (pushed (n.vms i) k) a l in
          let o = more a in
          let c = h.counted a m in
          let top = refs_bound n.vm_counter n.vms a in
          let small = h.few in
          elim (ℕ_discrete a k) [
            | yes e ↦
                let u : (store n.buf k (record (n.buf k) { used = add32 (n.buf k).used 1 }) a).used
                    ≡ add32 (n.buf a).used 1 =
                  subst
                    (λ y.
                      (store n.buf k (record (n.buf k) { used = add32 (n.buf k).used 1 }) y).used
                      ≡ add32 (n.buf y).used 1)
                    (sym e)
                    (ap (λ x. x.used)
                      (store_at n.buf k (record (n.buf k) { used = add32 (n.buf k).used 1 }))) in
                let one : ◌≡◌ {A = ℕ} (if k == a then 1 else 0) 1 =
                  ap (λ t. if t then 1 else 0) (ap (λ y. k == y) e ∙ ==-refl k) in
                omega (arith, u, one, o, r, c, top, small)
            | no d ↦
                let u =
                  ap (λ x. x.used)
                    (store_off n.buf k a (record (n.buf k) { used = add32 (n.buf k).used 1 }) d) in
                let none_more : ◌≡◌ {A = ℕ} (if k == a then 1 else 0) 0 =
                  ap (λ t. if t then 1 else 0) (==-ne k a (λ z. d (sym z))) in
                omega (arith, u, none_more, o, r, c)
          ]

  pub push-waiting : waiting ((push n i k).vms i) ≡ waiting (n.vms i) + 1
  unfolding push
  push-waiting =
      ap waiting (store_at n.vms i (pushed (n.vms i) k))
      ∙ waiting-pushed (n.vms i) (h.rings i l) k room

  pub push-other : (a : ℕ) → a ≢ i → (push n i k).vms a ≡ n.vms a
  unfolding push
  push-other a d = store_off n.vms i a (pushed (n.vms i) k) d

module _ (n : Net) (i : ℕ) (h : IsShared n) (l : i < n.vm_counter)
    (some_wait : waiting (n.vms i) ≢ 0) where
  abbrev k : ℕ
  k = oldest (n.vms i) (h.rings i l)

  -- The oldest buffer of a ring leaves it and does not count it any more.
  pub pop-IsShared : IsShared (pop n i k)
  unfolding pop
  pop-IsShared = record {
    few = h.few;
    rings =
        rings_store IsRing n.vms n.vm_counter i (popped (n.vms i)) h.rings
          (popped-IsRing (n.vms i) (h.rings i l) some_wait).0;
    counted = count;
  }
    where
      less :
          (a : ℕ)
          → occurs a (pending (n.vms i))
            ≡ (if k == a then 1 else 0) + occurs a (pending (popped (n.vms i)))
      less a = ap (occurs a) (pending-popped (n.vms i) (h.rings i l) some_wait)

      count :
          (a : ℕ)
          → a < 10
          → (store n.buf k (record (n.buf k) { used = sub32 (n.buf k).used 1 }) a).used
            ≡ refs n.vm_counter (store n.vms i (popped (n.vms i))) a
      count a m =
          let r = refs-store n.vm_counter i n.vms (popped (n.vms i)) a l in
          let o = less a in
          let c = h.counted a m in
          let top = refs_bound n.vm_counter n.vms a in
          let at = refs_at n.vm_counter i n.vms a l in
          let small = h.few in
          elim (ℕ_discrete a k) [
            | yes e ↦
                let u : (store n.buf k (record (n.buf k) { used = sub32 (n.buf k).used 1 }) a).used
                    ≡ sub32 (n.buf a).used 1 =
                  subst
                    (λ y.
                      (store n.buf k (record (n.buf k) { used = sub32 (n.buf k).used 1 }) y).used
                      ≡ sub32 (n.buf y).used 1)
                    (sym e)
                    (ap (λ x. x.used)
                      (store_at n.buf k (record (n.buf k) { used = sub32 (n.buf k).used 1 }))) in
                let one : ◌≡◌ {A = ℕ} (if k == a then 1 else 0) 1 =
                  ap (λ t. if t then 1 else 0) (ap (λ y. k == y) e ∙ ==-refl k) in
                omega (arith, u, one, o, r, c, top, at, small)
            | no d ↦
                let u =
                  ap (λ x. x.used)
                    (store_off n.buf k a (record (n.buf k) { used = sub32 (n.buf k).used 1 }) d) in
                let none_less : ◌≡◌ {A = ℕ} (if k == a then 1 else 0) 0 =
                  ap (λ t. if t then 1 else 0) (==-ne k a (λ z. d (sym z))) in
                omega (arith, u, none_less, o, r, c)
          ]

-- get_free_buffer of a driver whose buffers count the places of the rings that hold them is a buffer that
-- no ring of a registered VM holds, or -1, and then some ring holds each of the ten.
pub get_free_buffer_lem :
    (n : Net)
    → IsShared n
    → ((get_free_buffer n < 10)
        × ((i : ℕ) → i < n.vm_counter → ¬ In (get_free_buffer n) (pending (n.vms i))))
      ⊎ ((get_free_buffer n ≡ negative 1) × ((k : ℕ) → k < 10 → refs n.vm_counter n.vms k ≢ 0))
unfolding get_free_buffer
get_free_buffer_lem n h = elim (first_index_lem (λ i. (n.buf i).used == 0) 10 0) [
  | inl f ↦ inr (
    f.0,
    λ k l z. let c = h.counted k l in let t = f.1 k (omega arith) l in ground (arith, c, t, z),
  )
  | inr f ↦ inl (
    f.1,
    λ i l m.
        let k = first_index (λ i. (n.buf i).used == 0) 10 0 in
        let c = h.counted k f.1 in
        let some_place = occurs-In k (pending (n.vms i)) m in
        let at = refs_at n.vm_counter i n.vms k l in
        let z : (n.buf k).used ≡ 0 = let t = f.2 in ground (arith, t) in
        absurd (omega (arith, z, c, some_place, at)),
  )
]
