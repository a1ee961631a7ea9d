-- ===== src/Queue/Window.antt =====
-- Going round a circular array of `size` places: the window of `n` values from index `h` on.
use native.Mathlib.Nat.{mod-add-mod, mod-eq_of_lt, mod-eq-sub-mod, add-zero}
use native.Mathlib.Decide.{dec_lt}
use prpl_hypervisor.Base.{
  ℕ, zero, suc, ◌+◌, ◌-◌, ◌%◌, ◌≤◌, ◌<◌, ◌≡◌, refl, sym, ap, ap₂, ◌∙◌, ◌≢◌, ◌⊎◌, inl, inr, List, [],
  ◌∷◌, ◌++◌, arith, length, get_or, set, get_or-set_self, get_or-set_ne,
}

-- A number below `2 * s` is its own remainder, or `s` more.
pub mod-cases : (a s : ℕ) → a < s + s → ((a % s ≡ a) × (a < s)) ⊎ ((a % s + s ≡ a) × (s ≤ a))
mod-cases a s h = elim (dec_lt a s) [
  | yes p ↦ inl (mod-eq_of_lt p, p)
  | no p ↦ inr (
    omega (
      arith,
      mod-eq-sub-mod {n = a} {m = s} (omega arith),
      mod-eq_of_lt {n = a - s} {m = s} (omega arith),
    ),
    omega arith,
  )
]

pub mod-step : (h n s : ℕ) → (h + suc n) % s ≡ ((h + 1) % s + n) % s
mod-step h n s = rw mod-add-mod (ap (λ k. k % s) (omega arith))

-- One place further at the end, or at the start, of a window.
pub mod-shift : (h n s : ℕ) → ((h + n) % s + 1) % s ≡ (h + (n + 1)) % s
mod-shift h n s = rw mod-add-mod (ap (λ k. k % s) (omega arith))

pub mod-back : (h n s : ℕ) → n ≢ 0 → ((h + 1) % s + (n - 1)) % s ≡ (h + n) % s
mod-back h n s p = rw mod-add-mod (ap (λ k. k % s) (omega arith))

mod-here : (h s : ℕ) → h < s → (h + 0) % s ≡ h
mod-here h s hh = rw add-zero (mod-eq_of_lt hh)

-- Fewer than `size` steps round the array do not come back to the start.
pub add-mod-ne : {size h k : ℕ} → h < size → suc k < size → (h + suc k) % size ≢ h
add-mod-ne {size} {h} {k} hh hk = ground (arith, mod-cases (h + suc k) size (omega arith))

-- Two offsets below `size` reach the same place only if they are equal.
pub add-mod-injective :
    {size h i j : ℕ} → h < size → i < size → j < size → (h + i) % size ≡ (h + j) % size → i ≡ j
add-mod-injective {size} {h} {i} {j} hh hi hj e =
    ground (arith, mod-cases (h + i) size (omega arith), mod-cases (h + j) size (omega arith))

module _ {ℓ} {A : Type ℓ} (d : A) where
  abbrev pub window : List A → ℕ → ℕ → ℕ → List A
  window buf size h zero = []
  window buf size h (suc n) = get_or buf h d ∷ window buf size ((h + 1) % size) n

  pub length-window : (buf : List A) (size h n : ℕ) → length (window buf size h n) ≡ n
  length-window buf size h zero = refl
  length-window buf size h (suc n) = ap suc (length-window buf size ((h + 1) % size) n)

  pub window_of_pos :
      (buf : List A) (size h n : ℕ)
      → n ≢ 0
      → window buf size h n ≡ get_or buf h d ∷ window buf size ((h + 1) % size) (n - 1)
  window_of_pos buf size h zero p = absurd (p refl)
  window_of_pos buf size h (suc n) p = ap (λ k. window buf size h (suc k)) (omega arith)

  pub get_or-window :
      (buf : List A) (size h n i : ℕ)
      → h < size
      → i < n
      → get_or (window buf size h n) i d ≡ get_or buf ((h + i) % size) d
  get_or-window buf size h zero i hh hi = absurd (omega arith)
  get_or-window buf size h (suc n) zero hh hi =
      ap (λ k. get_or buf k d) (sym (rw add-zero (mod-eq_of_lt hh)))
  get_or-window buf size h (suc n) (suc i) hh hi =
      get_or-window buf size ((h + 1) % size) n i (omega arith) (omega arith)
      ∙ ap (λ k. get_or buf k d) (sym (mod-step h i size))

  -- Writing just past a window extends it.
  pub window-set_end :
      (buf : List A) (size : ℕ) (x : A) (n h i : ℕ)
      → size ≤ length buf
      → h < size
      → n < size
      → i ≡ (h + n) % size
      → window (set buf i x) size h (suc n) ≡ window buf size h n ++ (x ∷ [])
  window-set_end buf size x zero h i hs hh hn e =
      rw (e, add-zero, mod-eq_of_lt hh, get_or-set_self buf h x d (omega arith))
  window-set_end buf size x (suc n) h i hs hh hn e =
      ap₂ ◌∷◌ (get_or-set_ne buf x d (rw e (add-mod-ne hh hn))) (
        window-set_end buf size x n ((h + 1) % size) i hs (omega arith) (omega arith)
          (e ∙ mod-step h n size))

  -- Writing where the window does not reach leaves it alone.
  pub window-set_outside :
      (buf : List A) (size : ℕ) (x : A) (n h i : ℕ)
      → ((k : ℕ) → k < n → (h + k) % size ≢ i)
      → h < size
      → window (set buf i x) size h n ≡ window buf size h n
  window-set_outside buf size x zero h i out hh = refl
  window-set_outside buf size x (suc n) h i out hh =
      ap₂ ◌∷◌
        (get_or-set_ne buf x d (λ e. out 0 (omega arith) (rw add-zero (mod-eq_of_lt hh ∙ sym e))))
        (window-set_outside buf size x n ((h + 1) % size) i
          (λ k hk e. out (suc k) (omega arith) (mod-step h k size ∙ e)) (omega arith))

  -- Writing at offset `j` of a window sets its entry `j`.
  pub window-set :
      (buf : List A) (size : ℕ) (x : A) (n h j : ℕ)
      → size ≤ length buf
      → h < size
      → n ≤ size
      → j < n
      → window (set buf ((h + j) % size) x) size h n ≡ set (window buf size h n) j x
  window-set buf size x zero h j hs hh hn hj = absurd (omega arith)
  window-set buf size x (suc n) h zero hs hh hn hj =
      ap₂ ◌∷◌
        (ap (λ k. get_or (set buf k x) h d) (mod-here h size hh)
          ∙ get_or-set_self buf h x d (omega arith))
        (ap (λ k. window (set buf k x) size ((h + 1) % size) n) (mod-here h size hh)
          ∙ window-set_outside buf size x n ((h + 1) % size) h
              (λ k hk e. add-mod-ne {k = k} hh (omega arith) (mod-step h k size ∙ e)) (omega arith))
  window-set buf size x (suc n) h (suc j) hs hh hn hj =
      ap₂ ◌∷◌ (get_or-set_ne buf x d (add-mod-ne {k = j} hh (omega arith))) (
        ap (λ k. window (set buf k x) size ((h + 1) % size) n) (mod-step h j size)
        ∙ window-set buf size x n ((h + 1) % size) j hs (omega arith) (omega arith) (omega arith))
