-- ===== src/Emulation/Saved.antt =====
-- The registers of the guest, saved in memory and restored.
use prpl_hypervisor.Base.{
  ℕ, zero, suc, ◌+◌, ◌-◌, ◌*◌, ◌≤◌, ◌<◌, ◌≡◌, refl, ap, ◌∙◌, ◌⊎◌, inl, arith,
}
use prpl_hypervisor.Machine.{store}
use prpl_hypervisor.Emulation.{
  Baikal, copy_gprs, gpr_context_restore, gpr_context_save, move_from_gpr, gpr_size,
}

copy_gprs_kept :
    (n : ℕ) (words : ℕ → ℕ) (to from a : ℕ)
    → (a < to) ⊎ (to + 4 * n ≤ a)
    → copy_gprs words to from n a ≡ words a
unfolding copy_gprs
copy_gprs_kept zero words to from a out = refl
copy_gprs_kept (suc n) words to from a out =
    copy_gprs_kept n (store words to (words from)) (to + 4) (from + 4) a (ground arith)
    ∙ ground arith

copy_gprs_word :
    (n : ℕ) (words : ℕ → ℕ) (to from k : ℕ)
    → k < n
    → (from + 4 * n ≤ to) ⊎ (to + 4 * n ≤ from)
    → copy_gprs words to from n (to + 4 * k) ≡ words (from + 4 * k)
unfolding copy_gprs
copy_gprs_word zero words to from k l apart = absurd (omega arith)
copy_gprs_word (suc n) words to from zero l apart =
    copy_gprs_kept n (store words to (words from)) (to + 4) (from + 4) (to + 4 * 0)
      (inl (omega arith))
    ∙ stored
  where
    stored : store words to (words from) (to + 4 * 0) ≡ words (from + 4 * 0)
    stored = ground arith
copy_gprs_word (suc n) words to from (suc k) l apart =
    ap (copy_gprs (store words to (words from)) (to + 4) (from + 4) n) next
    ∙ copy_gprs_word n (store words to (words from)) (to + 4) (from + 4) k (omega arith)
        (ground arith)
    ∙ (away ∙ ap words after)
  where
    next : to + 4 * suc k ≡ to + 4 + 4 * k
    next = omega arith

    after : from + 4 + 4 * k ≡ from + 4 * suc k
    after = omega arith

    away : store words to (words from) (from + 4 + 4 * k) ≡ words (from + 4 + 4 * k)
    away = ground arith

-- When the 34 words at `p` are apart from those below the stack, of which there are enough, the registers
-- that gpr_context_restore brings back are those that gpr_context_save saved, if the words at `p` are
-- still the same.
pub gprs_restore-save :
    (top : ℕ) (c c' : Baikal) (p r : ℕ)
    → gpr_size ≤ top
    → (top ≤ p) ⊎ (p + gpr_size ≤ top - gpr_size)
    → ((k : ℕ) → k < 34 → c'.word_at (p + 4 * k) ≡ (gpr_context_save top c p).word_at (p + 4 * k))
    → r < 34
    → move_from_gpr top (gpr_context_restore top c' p) r ≡ move_from_gpr top c r
unfolding gpr_context_save gpr_context_restore move_from_gpr
gprs_restore-save top c c' p r room apart same l =
    copy_gprs_word 34 c'.word_at (top - gpr_size) p r l (ground arith)
    ∙ same r l
    ∙ copy_gprs_word 34 c.word_at p (top - gpr_size) r l (ground arith)
