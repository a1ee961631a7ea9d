-- ===== src/Interrupts/Vector.antt =====
-- Where a registration puts an interrupt handler.
use prpl_hypervisor.Base.{
  ℕ, suc, ◌+◌, ◌*◌, ◌<◌, ◌≡◌, refl, ap, ◌∙◌, ◌⊎◌, inl, inr, List, [], ◌∷◌, Option, none, some,
  arith, length, set, get_or, take, All,
}
use prpl_hypervisor.Interrupts.{register_interrupt, register_from, vector_1_offset}

-- A place that has a handler.
abbrev pub IsTaken {ℓ} : {H : Type ℓ} → Option H → Type ℓ
IsTaken {H = H} place = (h : H) × (place ≡ some h)

module _ {ℓ} {H : Type ℓ} where
  -- The first free place of the vector is `n`.
  pub record IsFirstFree (handlers : List (Option H)) (n : ℕ) : Type ℓ where
    pub inside : n < length handlers
    pub free : get_or handlers n none ≡ none
    pub first : All IsTaken (take n handlers)

  abbrev pub Registers : List (Option H) → H → ℕ → List (Option H) × ℕ → Type ℓ
  Registers handlers handler i r =
      ((n : ℕ) × IsFirstFree handlers n
        × (r.0 ≡ set handlers n (some handler))
        × (r.1 ≡ vector_1_offset + (i + n) * 32))
      ⊎ (All IsTaken handlers × (r.0 ≡ handlers) × (r.1 ≡ 0))

  Registers-later :
      (taken handler : H) (rest : List (Option H)) (i : ℕ) (r : List (Option H) × ℕ)
      → Registers rest handler (suc i) r
      → Registers (some taken ∷ rest) handler i (some taken ∷ r.0, r.1)
  Registers-later taken handler rest i r (inl (n, f, e, o)) = inl (
    suc n,
    record { inside = omega (arith, f); free = f.free; first = ((taken, refl), f.first) },
    ap (◌∷◌ (some taken)) e,
    o ∙ ap (λ k. vector_1_offset + k * 32) (omega arith),
  )
  Registers-later taken handler rest i r (inr (all, e, o)) =
      inr (((taken, refl), all), ap (◌∷◌ (some taken)) e, o)

  register_from_lem :
      (handlers : List (Option H)) (handler : H) (i : ℕ)
      → Registers handlers handler i (register_from i handlers handler)
  unfolding register_from
  register_from_lem [] handler i = inr (tt, refl, refl)
  register_from_lem (none ∷ rest) handler i = inl (
    0,
    record { inside = omega arith; free = refl; first = tt },
    refl,
    ap (λ k. vector_1_offset + k * 32) (omega arith),
  )
  register_from_lem (some other ∷ rest) handler i =
      Registers-later other handler rest i (register_from (suc i) rest handler)
        (register_from_lem rest handler (suc i))

  -- `register_interrupt` puts the handler in the first free place `n` and returns 0x220 + 32 n, or, if
  -- every place is taken, changes nothing and returns 0.
  pub register_interrupt_lem :
      (handlers : List (Option H)) (handler : H)
      → Registers handlers handler 0 (register_interrupt handlers handler)
  unfolding register_interrupt
  register_interrupt_lem handlers handler = register_from_lem handlers handler 0
