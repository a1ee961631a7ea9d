-- ===== src/Emulation/Effect.antt =====
-- What the emulation of an instruction does.
use prpl_hypervisor.Base.{
  ℕ, ◌≡◌, ◌≢◌, ◌≤◌, ◌*◌, ◌/◌, ◌^◌, refl, sym, ap, subst, ◌⊎◌, inl, inr, arith, bit_and, ◌==◌, true,
  if◌then◌else◌, ==-ne, bit_and_last, ◌∙◌,
}
use native.Mathlib.Decide.{ℕ_discrete}
use prpl_hypervisor.Machine.{complement, store₂}
use prpl_hypervisor.Emulation.{
  Baikal, opcode, func, rs, rt, rd, sel, co, srsctl_hss, move_to_gpr, move_from_gpr,
  co_instructions, mfc0_instructions, mtc0_instructions, instruction_emulation, checked,
}

-- The CP0 registers that a guest may read, by register and select, with what it reads.
pub data Reads (c : Baikal) : ℕ → ℕ → ℕ → Type 0 where
  srsctl : Reads c 12 2 (bit_and (c.cp0 12 2) (complement srsctl_hss))
  prid : Reads c 15 0 (c.cp0 15 0)
  watchlo0 : Reads c 18 0 (c.gcp0 18 0)
  watchlo1 : Reads c 18 1 0
  watchhi0 : Reads c 19 0 (c.gcp0 19 0)
  watchhi1 : Reads c 19 1 0

-- Those that it may write, with the guest's registers that this leaves for a value.
pub data Writes (c : Baikal) (v : ℕ) : ℕ → ℕ → (ℕ → ℕ → ℕ) → Type 0 where
  watchlo0 : Writes c v 18 0 (store₂ c.gcp0 18 0 v)
  watchlo1 : Writes c v 18 1 c.gcp0
  watchhi0 : Writes c v 19 0 (store₂ c.gcp0 19 0 v)
  watchhi1 : Writes c v 19 1 c.gcp0

-- The registers and selects that are read, and those that are written.
abbrev pub IsReadable : ℕ → ℕ → Type 0
IsReadable r s =
    ((r ≡ 12) × (s ≡ 2)) ⊎ (((r ≡ 15) × (s ≡ 0)) ⊎ (((r ≡ 18) ⊎ (r ≡ 19)) × ((s ≡ 0) ⊎ (s ≡ 1))))

abbrev pub IsWritable : ℕ → ℕ → Type 0
IsWritable r s = ((r ≡ 18) ⊎ (r ≡ 19)) × ((s ≡ 0) ⊎ (s ≡ 1))

-- An mfc0 of one of the former, or an mtc0 of one of the latter.
abbrev pub IsEmulated : ℕ → Type 0
IsEmulated i =
    (opcode i ≡ 0x10)
    × (((rs i ≡ 0) × IsReadable (rd i) (sel i)) ⊎ ((rs i ≡ 4) × IsWritable (rd i) (sel i)))

fifth_bit : (x : ℕ) → 16 * bit_and (x / 2 ^ 4) 1 ≤ bit_and x 31
fifth_bit x =
    let quarter : x / 2 / 2 / 2 / 2 ≡ x / 2 ^ 4 = omega arith in
    subst (λ y. 16 * bit_and y 1 ≤ bit_and x 31) quarter
      (omega (
        arith,
        bit_and_last x 31,
        bit_and_last (x / 2) 15,
        bit_and_last (x / 2 / 2) 7,
        bit_and_last (x / 2 / 2 / 2) 3,
      ))

co-rs : (i : ℕ) → co i ≡ 1 → (rs i ≡ 0) ⊎ (rs i ≡ 4) → ⊥
co-rs i e m =
    let same : i / 2 ^ 21 / 2 ^ 4 ≡ i / 2 ^ 25 = omega arith in
    let high : 16 * bit_and (i / 2 ^ 21 / 2 ^ 4) 1 ≤ rs i = fifth_bit (i / 2 ^ 21) in
    let one : bit_and (i / 2 ^ 21 / 2 ^ 4) 1 ≡ 1 = ap (λ x. bit_and x 1) same ∙ e in
    omega (arith, high, one, m)

if-cases {ℓ} :
    {A : Type 0} (P : A → Type ℓ) (a b : ℕ) (x y : A)
    → (a ≡ b → P x)
    → (a ≢ b → P y)
    → P (if a == b then x else y)
if-cases P a b x y t f = elim (ℕ_discrete a b) [
  | yes e ↦ subst P (ap (λ r. if r then x else y) (sym (is_same e))) (t e)
  | no n ↦ subst P (ap (λ r. if r then x else y) (sym (==-ne a b n))) (f n)
]
  where
    is_same : a ≡ b → (a == b) ≡ true
    is_same e = ground (arith, e)

module _ (top : ℕ) where
  -- A read that is emulated: the register that the instruction names gets the value, and nothing else
  -- changes.
  abbrev pub ReadsTo : Baikal → ℕ → Baikal → Type 0
  ReadsTo c i c' = (v : ℕ) × Reads c (rd i) (sel i) v × (c' ≡ move_to_gpr top c (rt i) v)

  -- A write that is emulated. The value comes from the general register with the number of the CP0
  -- register.
  abbrev pub WritesTo : Baikal → ℕ → Baikal → Type 0
  WritesTo c i c' =
      (g : ℕ → ℕ → ℕ) × Writes c (move_from_gpr top c (rd i)) (rd i) (sel i) g
      × (c' ≡ record c { gcp0 = g })

  -- The instruction is emulated with the effect; or its register is no such, it is refused and nothing
  -- changes.
  abbrev pub Done :
      (Baikal → ℕ → Baikal → Type 0) → (ℕ → ℕ → Type 0) → Baikal → ℕ → Baikal × ℕ → Type 0
  Done Effect Able c i r =
      (Effect c i r.0 × (r.1 ≡ 0)) ⊎ ((¬ Able (rd i) (sel i)) × (r.0 ≡ c) × (r.1 ≡ 1))

  read_at :
      (c : Baikal) (i : ℕ) {r s v : ℕ}
      → rd i ≡ r
      → sel i ≡ s
      → Reads c r s v
      → Done ReadsTo IsReadable c i (move_to_gpr top c (rt i) v, 0)
  read_at c i {r = r} {s = s} {v = v} e k x = inl (
    (v, subst (λ a. Reads c a (sel i) v) (sym e) (subst (λ b. Reads c r b v) (sym k) x), refl),
    refl,
  )

  write_at :
      (c : Baikal) (i : ℕ) {r s : ℕ} {g : ℕ → ℕ → ℕ}
      → rd i ≡ r
      → sel i ≡ s
      → Writes c (move_from_gpr top c (rd i)) r s g
      → Done WritesTo IsWritable c i (record c { gcp0 = g }, 0)
  write_at c i {r = r} {s = s} {g = g} e k x =
      let value = move_from_gpr top c (rd i) in
      inl (
        (
          g,
          subst (λ a. Writes c value a (sel i) g) (sym e)
              (subst (λ b. Writes c value r b g) (sym k) x),
          refl,
        ),
        refl,
      )

  mfc0_lem : (c : Baikal) (i : ℕ) → Done ReadsTo IsReadable c i (mfc0_instructions top c i)
  unfolding mfc0_instructions
  mfc0_lem c i = if-cases (Done ReadsTo IsReadable c i) (rd i) 12 _ _ srsctl_case (λ not_12.
      if-cases (Done ReadsTo IsReadable c i) (rd i) 15 _ _ prid_case (λ not_15.
        if-cases (Done ReadsTo IsReadable c i) (rd i) 18 _ _
          (λ r. watch_case 18 (c.gcp0 18 0) r (inl refl) watchlo0 watchlo1)
          (λ not_18.
            if-cases (Done ReadsTo IsReadable c i) (rd i) 19 _ _
              (λ r. watch_case 19 (c.gcp0 19 0) r (inr refl) watchhi0 watchhi1)
              (λ n. inr (λ w. ground (arith, w), refl, refl)))))
    where
      srsctl_case :
          rd i ≡ 12
          → Done ReadsTo IsReadable c i (
              if sel i == 2
              then (move_to_gpr top c (rt i) (bit_and (c.cp0 12 2) (complement srsctl_hss)), 0)
              else (c, 1))
      srsctl_case r =
          if-cases (Done ReadsTo IsReadable c i) (sel i) 2 _ _ (λ s. read_at c i r s srsctl)
            (λ n. inr (λ w. ground (arith, w), refl, refl))

      prid_case :
          rd i ≡ 15
          → Done ReadsTo IsReadable c i
              (if sel i == 0 then (move_to_gpr top c (rt i) (c.cp0 15 0), 0) else (c, 1))
      prid_case r =
          if-cases (Done ReadsTo IsReadable c i) (sel i) 0 _ _ (λ s. read_at c i r s prid)
            (λ n. inr (λ w. ground (arith, w), refl, refl))

      watch_case :
          (k v : ℕ)
          → rd i ≡ k
          → (k ≡ 18) ⊎ (k ≡ 19)
          → Reads c k 0 v
          → Reads c k 1 0
          → Done ReadsTo IsReadable c i (
              if sel i == 0
              then (move_to_gpr top c (rt i) v, 0)
              else if sel i == 1
              then (move_to_gpr top c (rt i) 0, 0)
              else (c, 1))
      watch_case k v r either x y =
          if-cases (Done ReadsTo IsReadable c i) (sel i) 0 _ _ (λ s. read_at c i r s x)
            (λ not_zero.
              if-cases (Done ReadsTo IsReadable c i) (sel i) 1 _ _ (λ s. read_at c i r s y)
                (λ n. inr (λ w. ground (arith, w), refl, refl)))

  mtc0_lem : (c : Baikal) (i : ℕ) → Done WritesTo IsWritable c i (mtc0_instructions top c i)
  unfolding mtc0_instructions
  mtc0_lem c i =
      if-cases (Done WritesTo IsWritable c i) (rd i) 18 _ _
        (λ r.
          watch_case 18 r (inl refl) (store₂ c.gcp0 18 0 (move_from_gpr top c (rd i))) watchlo0
            watchlo1)
        (λ not_18.
          if-cases (Done WritesTo IsWritable c i) (rd i) 19 _ _
            (λ r.
              watch_case 19 r (inr refl) (store₂ c.gcp0 19 0 (move_from_gpr top c (rd i))) watchhi0
                watchhi1)
            (λ n. inr (λ w. ground (arith, w), refl, refl)))
    where
      watch_case :
          (k : ℕ)
          → rd i ≡ k
          → (k ≡ 18) ⊎ (k ≡ 19)
          → (g : ℕ → ℕ → ℕ) → Writes c (move_from_gpr top c (rd i)) k 0 g
          → Writes c (move_from_gpr top c (rd i)) k 1 c.gcp0
          → Done WritesTo IsWritable c i (
              if sel i == 0
              then (record c { gcp0 = g }, 0)
              else if sel i == 1
              then (c, 0)
              else (c, 1))
      watch_case k r either g x y =
          if-cases (Done WritesTo IsWritable c i) (sel i) 0 _ _ (λ s. write_at c i r s x)
            (λ not_zero.
              if-cases (Done WritesTo IsWritable c i) (sel i) 1 _ _ (λ s. write_at c i r s y)
                (λ n. inr (λ w. ground (arith, w), refl, refl)))

  -- The three outcomes of an emulation: a read, a write, and a refusal, of another instruction, that
  -- changes nothing.
  abbrev pub Emulates : Baikal → ℕ → Baikal × ℕ → Type 0
  Emulates c i r =
      ((r.1 ≡ 0) × (opcode i ≡ 0x10) × (rs i ≡ 0) × ReadsTo c i r.0)
      ⊎ (((r.1 ≡ 0) × (opcode i ≡ 0x10) × (rs i ≡ 4) × WritesTo c i r.0)
          ⊎ ((r.1 ≡ 1) × (r.0 ≡ c) × ¬ IsEmulated i))

  checked_read :
      (c : Baikal) (i : ℕ) (r : Baikal × ℕ)
      → opcode i ≡ 0x10
      → rs i ≡ 0
      → Done ReadsTo IsReadable c i r
      → Emulates c i (checked r)
  checked_read c i (c', status) o m (inl (e, z)) = rw z (inl (refl, o, m, e))
  checked_read c i (c', status) o m (inr (unable, same, one)) =
      rw one (inr (inr (refl, same, λ w. ground (arith, w, unable))))

  checked_write :
      (c : Baikal) (i : ℕ) (r : Baikal × ℕ)
      → opcode i ≡ 0x10
      → rs i ≡ 4
      → Done WritesTo IsWritable c i r
      → Emulates c i (checked r)
  checked_write c i (c', status) o m (inl (e, z)) = rw z (inr (inl (refl, o, m, e)))
  checked_write c i (c', status) o m (inr (unable, same, one)) =
      rw one (inr (inr (refl, same, λ w. ground (arith, w, unable))))

  co_refused : (c : Baikal) (i : ℕ) → co i ≡ 1 → Emulates c i (checked (c, co_instructions i))
  unfolding co_instructions
  co_refused c i e =
      if-cases (λ n. Emulates c i (checked (c, n))) (func i) 0x20 1 1
        (λ f. inr (inr (refl, refl, none_such))) (λ f. inr (inr (refl, refl, none_such)))
    where
      none_such : ¬ IsEmulated i
      none_such (o, inl (m, r)) = co-rs i e (inl m)
      none_such (o, inr (m, r)) = co-rs i e (inr m)

  -- The emulation of the instruction in BadInstr returns 0 for an mfc0 of one of six CP0 registers, which
  -- puts into the general register that the instruction names what the guest may see and changes nothing
  -- else; and for an mtc0 of one of four Watch registers, which changes at most that register of the
  -- guest, to the value of the general register whose number is the CP0 register's. For any other
  -- instruction it returns 1 and changes nothing.
  pub instruction_emulation_lem :
      (c : Baikal) → Emulates c (c.cp0 8 1) (instruction_emulation top c)
  unfolding instruction_emulation
  instruction_emulation_lem c =
      let i = c.cp0 8 1 in
      if-cases (Emulates c i) (opcode i) 0x10 _ _
        (λ o.
          if-cases (Emulates c i) (co i) 1 _ _ (λ e. co_refused c i e)
            (λ n.
              if-cases (Emulates c i) (rs i) 4 _ _
                (λ m. checked_write c i (mtc0_instructions top c i) o m (mtc0_lem c i))
                (λ not_mtc0.
                  if-cases (Emulates c i) (rs i) 0 _ _
                    (λ m. checked_read c i (mfc0_instructions top c i) o m (mfc0_lem c i))
                    (λ not_mfc0. inr (
                      inr (
                        refl,
                        refl,
                        λ w. elim w.1 [ inl (m, _) ↦ not_mfc0 m | inr (m, _) ↦ not_mtc0 m ],
                      ))))))
        (λ n. inr (inr (refl, refl, λ w. n w.0)))
