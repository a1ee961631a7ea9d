-- ===== src/Interrupts/Baikal.antt =====
-- arch/mips/baikal-t1/interrupts.c: the vector of interrupt handlers of the Baikal-T1, which the driver
-- chooses the place in. A handler changes the state of the machine.
use prpl_hypervisor.Base.{
  ℕ, ◌<◌, ◌≤◌, ◌≡◌, ◌≢◌, refl, sym, ap, ◌⊎◌, inl, inr, arith, List, Option, none, some,
  Option-cases, true, false, Bool-cases, ltb, ◌&&◌, if◌then◌else◌, length, set, get_or,
  get_or-set_self, get_or-set_ne,
}

-- MAX_NUM_INTERRUPTS
abbrev pub max_num_interrupts : ℕ
max_num_interrupts = 64

-- `__interrupt_handler`; without a handler there is a log message.
call {ℓ} : {S : Type ℓ} → Option (S → S) → S → S
call none s = s
call (some handler) s = handler s

unfoldable pub call_interrupt {ℓ} : {S : Type ℓ} → List (Option (S → S)) → ℕ → S → S
unfolding call
call_interrupt handlers n s = call (get_or handlers n none) s

module _ {ℓ} {H : Type ℓ} where
  place : Option H → List (Option H) → H → ℕ → List (Option H) × ℕ
  place none handlers handler n = (set handlers n (some handler), n)
  place (some other) handlers handler n = (handlers, 0)

  -- `register_interrupt`: the vector and the result.
  unfoldable pub register_interrupt_at : List (Option H) → H → ℕ → List (Option H) × ℕ
  unfolding place
  register_interrupt_at handlers handler n =
      if ltb 0 n && ltb n max_num_interrupts
      then place (get_or handlers n none) handlers handler n
      else (handlers, 0)

module _ {ℓ} {S : Type ℓ} (handlers : List (Option (S → S))) (handler : S → S) (n : ℕ) where
  abbrev pub registered : List (Option (S → S)) × ℕ
  registered = register_interrupt_at handlers handler n

  -- A registration at a free place from 1 to 63 returns the place: its interrupt calls the handler then,
  -- and the other interrupts what they called before. Any other registration returns 0 and changes nothing.
  pub register_interrupt_at_lem :
      length handlers ≡ max_num_interrupts
      → ((n ≢ 0)
          × (registered.1 ≡ n)
          × ((s : S) → call_interrupt registered.0 n s ≡ handler s)
          × ((m : ℕ) (s : S)
              → m ≢ n
              → call_interrupt registered.0 m s ≡ call_interrupt handlers m s))
        ⊎ ((registered.1 ≡ 0)
            × (registered.0 ≡ handlers)
            × ((n ≡ 0)
                ⊎ (max_num_interrupts ≤ n)
                ⊎ ((other : S → S) × (get_or handlers n none ≡ some other))))
  unfolding register_interrupt_at call_interrupt place
  register_interrupt_at_lem long = elim (Bool-cases (ltb 0 n && ltb n max_num_interrupts)) [
    | inr t ↦ inr (rw t refl, rw t refl, elim (outside n t) [ inl z ↦ inl z | inr l ↦ inr (inl l) ])
    | inl t ↦ elim (Option-cases (get_or handlers n none)) [
      | inr (other, e) ↦ inr (rw (t, e) refl, rw (t, e) refl, inr (inr (other, e)))
      | inl e ↦
          let l = inside n t in
          inl (
            (λ z. omega arith),
            rw (t, e) refl,
            λ s.
                rw (t, e)
                  (ap (λ o. call o s)
                    (get_or-set_self handlers n (some handler) none (omega arith))),
            λ m s d.
                rw (t, e)
                  (ap (λ o. call o s)
                    (get_or-set_ne handlers {i = n} {j = m} (some handler) none (λ z. d (sym z)))),
          )
    ]
  ]
    where
      inside : (n : ℕ) → (ltb 0 n && ltb n 64) ≡ true → (0 < n) × (n < 64)
      inside n t = ground (arith, t)

      outside : (n : ℕ) → (ltb 0 n && ltb n 64) ≡ false → (n ≡ 0) ⊎ (64 ≤ n)
      outside n t = ground (arith, t)
