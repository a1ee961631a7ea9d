-- ===== src/Ethernet/Return.antt =====
-- What the second loop of `en_ll_input` gives back.
use prpl_hypervisor.Base.{
  ℕ, zero, suc, ◌+◌, ◌-◌, ◌%◌, ◌≤◌, ◌<◌, ◌≡◌, ◌≢◌, refl, sym, ap, ◌∙◌, subst, ◌⊎◌, inl, inr, arith,
  some, ==-ne, ==-refl, true, false, ltb, lt→ltb, if◌then◌else◌,
}
use native.Mathlib.Decide.{ℕ_discrete}
use prpl_hypervisor.Machine.{store}
use prpl_hypervisor.Ethernet.{Desc, Port, desc_eown, desc_eop, desc_set_eown, give_back}
use prpl_hypervisor.Ethernet.Pages.{page}

-- The descriptors of a frame from the index on: `k` before the one that ends it, none the controller's.
abbrev pub Ends : Port → ℕ → Type 0
Ends p k =
    ((i : ℕ) → i ≤ k → desc_eown (page p.rx_desc p.receive_index i) ≡ false)
    × ((i : ℕ) → i < k → desc_eop (page p.rx_desc p.receive_index i) ≡ false)
    × (desc_eop (page p.rx_desc p.receive_index k) ≡ true)
    × (k < 48)
    × (p.receive_index < 48)

-- How far the descriptor `j` is behind the index.
abbrev pub behind : ℕ → ℕ → ℕ
behind index j = (j + 48 - index) % 48

-- The frame's descriptors are the controller's, the others as they were, and the index is behind them.
abbrev pub IsReturned : Port → ℕ → Port → Type 0
IsReturned p k p' =
    ((j : ℕ)
      → j < 48
      → p'.rx_desc j ≡ (
          if ltb (behind p.receive_index j) (k + 1)
          then desc_set_eown (p.rx_desc j)
          else p.rx_desc j))
    × (p'.receive_index ≡ (p.receive_index + (k + 1)) % 48)
    × (p'.returned ≡ p.returned + (k + 1))
    × (p'.is_up ≡ p.is_up)
    × (p'.memory ≡ p.memory)

-- One round.
abbrev returned_one : Port → Port
returned_one p = record p {
  rx_desc = store p.rx_desc p.receive_index (desc_set_eown (p.rx_desc p.receive_index));
  returned = p.returned + 1;
  receive_index = (p.receive_index + 1) % 48;
}

page_here : (desc : ℕ → Desc) (r : ℕ) → r < 48 → page desc r 0 ≡ desc r
page_here desc r h = ap desc (omega arith)

-- The descriptor behind the next index, unless it is the one that was given back.
page_next :
    (p : Port) (i : ℕ)
    → p.receive_index < 48
    → i + 1 < 48
    → page (returned_one p).rx_desc ((p.receive_index + 1) % 48) i
      ≡ page p.rx_desc p.receive_index (i + 1)
page_next p i h k =
    let same : ((p.receive_index + 1) % 48 + i) % 48 ≡ (p.receive_index + (i + 1)) % 48 =
      omega arith in
    let away : (p.receive_index + (i + 1)) % 48 ≢ p.receive_index = λ e. omega arith in
    ap (returned_one p).rx_desc same
    ∙ ap
        (λ b.
          if b
          then desc_set_eown (p.rx_desc p.receive_index)
          else page p.rx_desc p.receive_index (i + 1))
        (==-ne ((p.receive_index + (i + 1)) % 48) p.receive_index away)

behind_self : (r j : ℕ) → r < 48 → j ≡ r → behind r j ≡ 0
behind_self r j h e = omega arith

behind_next : (r j : ℕ) → r < 48 → j < 48 → j ≢ r → behind ((r + 1) % 48) j + 1 ≡ behind r j
behind_next r j h l n = omega arith

behind_last : (r j : ℕ) → r < 48 → j ≡ r → behind ((r + 1) % 48) j ≡ 47
behind_last r j h e = omega arith

-- A descriptor after the first round, by how far it is behind.
given_first :
    {A : Type 0} (f : A → A) (desc : ℕ → A) (r j b : ℕ)
    → ((j ≡ r) × (b ≡ 0)) ⊎ ((j ≢ r) × (0 < b))
    → store desc r (f (desc r)) j ≡ (if ltb b 1 then f (desc j) else desc j)
given_first f desc r j b (inl (e, z)) =
    subst (λ y. store desc r (f (desc r)) y ≡ (if ltb b 1 then f (desc y) else desc y)) (sym e)
      (rw (z, ==-refl r) refl)
given_first f desc r j b (inr (n, l)) = ground (arith, n, l)

-- And after all.
given_rest :
    {A : Type 0} (f : A → A) (desc : ℕ → A) (r j b b' k : ℕ)
    → ((j ≡ r) × (b ≡ 0) × (k < b')) ⊎ ((j ≢ r) × (b' + 1 ≡ b))
    → (if ltb b' (k + 1) then f (store desc r (f (desc r)) j) else store desc r (f (desc r)) j)
      ≡ (if ltb b (suc k + 1) then f (desc j) else desc j)
given_rest f desc r j b b' k (inl (e, z, l)) =
    subst
      (λ y.
        (if ltb b' (k + 1) then f (store desc r (f (desc r)) y) else store desc r (f (desc r)) y)
        ≡ (if ltb b (suc k + 1) then f (desc y) else desc y))
      (sym e)
      (rw (z, ==-refl r, ltb_false b' (k + 1) (omega arith), lt→ltb 0 (suc k + 1) (omega arith))
        refl)
  where
    ltb_false : (a c : ℕ) → c ≤ a → ltb a c ≡ false
    ltb_false a c h = ground arith
given_rest f desc r j b b' k (inr (n, e)) = ground (arith, n, e)

pub give_back_lem :
    (k fuel : ℕ) (p : Port)
    → Ends p k
    → k < fuel
    → (p' : Port) × (give_back fuel p ≡ some p') × IsReturned p k p'
unfolding give_back
give_back_lem k zero p e f = absurd (omega arith)
give_back_lem zero (suc fuel) p e f =
    let here = page_here p.rx_desc p.receive_index e.4 in
    let own : desc_eown (p.rx_desc p.receive_index) ≡ false =
      ap desc_eown (sym here) ∙ e.0 0 (omega arith) in
    let eop : desc_eop (p.rx_desc p.receive_index) ≡ true = ap desc_eop (sym here) ∙ e.2 in
    (
      returned_one p,
      rw (own, eop) refl,
      (
        λ j h.
            given_first desc_set_eown p.rx_desc p.receive_index j (behind p.receive_index j)
              (elim (ℕ_discrete j p.receive_index) [
                | yes d ↦ inl (d, behind_self p.receive_index j e.4 d)
                | no d ↦ let b = behind_next p.receive_index j e.4 h d in inr (d, omega (arith, b))
              ]),
        refl,
        refl,
        refl,
        refl,
      ),
    )
give_back_lem (suc k) (suc fuel) p e f =
    let here = page_here p.rx_desc p.receive_index e.4 in
    let own : desc_eown (p.rx_desc p.receive_index) ≡ false =
      ap desc_eown (sym here) ∙ e.0 0 (omega arith) in
    let eop : desc_eop (p.rx_desc p.receive_index) ≡ false =
      ap desc_eop (sym here) ∙ e.1 0 (omega arith) in
    let size = e.3 in
    let index = e.4 in
    let (p', run, r) =
      give_back_lem k fuel (returned_one p)
        (
          (λ i l. ap desc_eown (page_next p i index (omega arith)) ∙ e.0 (i + 1) (omega arith)),
          (λ i l. ap desc_eop (page_next p i index (omega arith)) ∙ e.1 (i + 1) (omega arith)),
          ap desc_eop (page_next p k index (omega arith))
              ∙ ap (λ y. desc_eop (page p.rx_desc p.receive_index y)) (omega arith)
              ∙ e.2,
          omega arith,
          omega arith,
        )
        (omega arith) in
    (
      p',
      rw (own, eop) run,
      (
        λ j h.
            r.0 j h
            ∙ given_rest desc_set_eown p.rx_desc p.receive_index j (behind p.receive_index j)
                (behind ((p.receive_index + 1) % 48) j) k
                (elim (ℕ_discrete j p.receive_index) [
                  | yes d ↦
                      let b = behind_last p.receive_index j index d in
                      inl (d, behind_self p.receive_index j index d, omega (arith, b))
                  | no d ↦ inr (d, behind_next p.receive_index j index h d)
                ]),
        r.1 ∙ omega arith,
        r.2 ∙ omega arith,
        r.3,
        r.4,
      ),
    )
