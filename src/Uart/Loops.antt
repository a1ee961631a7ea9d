-- ===== src/Uart/Loops.antt =====
-- The loops of the driver, and what holds of the table of transfers.
use prpl_hypervisor.Base.{
  ℕ, zero, suc, ◌+◌, ◌-◌, ◌≤◌, ◌<◌, ◌^◌, ◌≡◌, ◌≢◌, refl, sym, ap, subst, ◌⊎◌, inl, inr, List, [],
  ◌∷◌, Option, none, some, arith, if◌then◌else◌, ◌==◌, length, get_or, set, negative, min, ==-ne,
  ltb-ge, ltb→lt, ltb, Bool-cases, true,
}
use native.Mathlib.Decide.{ℕ_discrete}
use prpl_hypervisor.Machine.{Vcpu, blocked}
use prpl_hypervisor.Uart.{Uart, TransferInfo, no_transfer, transfer, transmit, next_transfer}

-- The characters from `i` on.
abbrev pub characters : (ℕ → ℕ) → ℕ → ℕ → List ℕ
characters mapped i zero = []
characters mapped i (suc n) = mapped i ∷ characters mapped (i + 1) n

-- `transmit` stops at the end or when the hardware's queue is full.
pub transmit_lem :
    (mapped : ℕ → ℕ) (room i size : ℕ)
    → let n = min room (size - i) in transmit mapped room i size ≡ (i + n, characters mapped i n)
unfolding transmit
transmit_lem mapped zero i size = ground arith
transmit_lem mapped (suc room) i size = elim (Bool-cases (ltb i size)) [
  | inl t ↦
      let below : i < size = ltb→lt i size t in
      let more : min (suc room) (size - i) ≡ suc (min room (size - (i + 1))) = omega arith in
      rw (t, more, transmit_lem mapped room (i + 1) size)
        (ap (λ k. (k, characters mapped i (suc (min room (size - (i + 1)))))) (omega arith))
  | inr t ↦
      let done : size ≤ i = ltb-ge i size t in
      let nothing : min (suc room) (size - i) ≡ 0 = omega arith in
      rw (t, nothing) (ap (λ k. (k, [])) (omega arith))
]

-- A transfer that `next_transfer` finds is queued, and if it finds none, none is queued.
abbrev pub Finds : ℕ → List TransferInfo → Option ℕ → Type 0
Finds i ts none = (j : ℕ) → (get_or ts j no_transfer).vcpu ≡ 0
Finds i ts (some k) = (j : ℕ) × (k ≡ i + j) × (j < length ts) × ((get_or ts j no_transfer).vcpu ≢ 0)

Finds-later :
    (t : TransferInfo) (ts : List TransferInfo) (i : ℕ) (o : Option ℕ)
    → t.vcpu ≡ 0
    → Finds (suc i) ts o
    → Finds i (t ∷ ts) o
Finds-later t ts i none z f = here_or_later
  where
    here_or_later : (j : ℕ) → (get_or (t ∷ ts) j no_transfer).vcpu ≡ 0
    here_or_later zero = z
    here_or_later (suc j) = f j
Finds-later t ts i (some k) z f = (suc f.0, omega (arith, f.1), omega (arith, f.2), f.3)

pub next_transfer-Finds : (ts : List TransferInfo) (i : ℕ) → Finds i ts (next_transfer i ts)
unfolding next_transfer
next_transfer-Finds [] i = λ j. refl
next_transfer-Finds (t ∷ ts) i = elim (ℕ_discrete t.vcpu 0) [
  | yes z ↦
      subst (Finds i (t ∷ ts))
        (ap (λ b. if b then next_transfer (suc i) ts else some i) (sym (is_zero z)))
        (Finds-later t ts i (next_transfer (suc i) ts) z (next_transfer-Finds ts (suc i)))
  | no n ↦
      subst (Finds i (t ∷ ts))
        (ap (λ b. if b then next_transfer (suc i) ts else some i) (sym (==-ne t.vcpu 0 n)))
        (0, omega arith, omega arith, n)
]
  where
    is_zero : t.vcpu ≡ 0 → (t.vcpu == 0) ≡ true
    is_zero z = ground (arith, z)

-- The `j`-th transfer is none, or that of a blocked VCPU with the id `j + 1` that has more to send.
pub record IsQueued (vcpus : ℕ → Vcpu) (j : ℕ) (t : TransferInfo) : Type 0 where
  pub non_null : t.vcpu ≢ 0
  pub more : t.next_character < t.size
  pub fits : t.size < 2 ^ 32
  pub owner : (vcpus t.vcpu).id ≡ suc j
  pub waits : (vcpus t.vcpu).state ≡ blocked

pub record IsUart (vcpus : ℕ → Vcpu) (u : Uart) : Type 0 where
  pub few : length u.transfers < 2 ^ 31
  pub each : (j : ℕ) → ((transfer u j).vcpu ≡ 0) ⊎ IsQueued vcpus j (transfer u j)
  pub active :
      ((u.active_transfer ≡ negative 1) × ((j : ℕ) → (transfer u j).vcpu ≡ 0))
      ⊎ ((u.active_transfer < length u.transfers) × ((transfer u u.active_transfer).vcpu ≢ 0))

-- How many characters are left to send.
abbrev pub rest_of : TransferInfo → ℕ
rest_of t = if t.vcpu == 0 then 0 else t.size - t.next_character

abbrev pub remaining : List TransferInfo → ℕ
remaining [] = 0
remaining (t ∷ ts) = rest_of t + remaining ts

pub remaining-set :
    (ts : List TransferInfo) (j : ℕ) (t : TransferInfo)
    → j < length ts
    → remaining (set ts j t) + rest_of (get_or ts j no_transfer) ≡ remaining ts + rest_of t
remaining-set [] j t l = absurd (omega arith)
remaining-set (s ∷ ts) zero t l = omega arith
remaining-set (s ∷ ts) (suc j) t l = omega (arith, remaining-set ts j t (omega arith))
