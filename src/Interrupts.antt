-- ===== src/Interrupts.antt =====
-- arch/mips/pic32mz/interrupts.c: the vector of interrupt handlers; a missing handler is a NULL.
-- Baikal models the vector of the other processor.
pub mod Vector
pub mod Baikal
mod Tests
use prpl_hypervisor.Base.{ℕ, zero, suc, ◌+◌, ◌*◌, List, [], ◌∷◌, Option, none, some}

-- VECTOR_1_OFFSET and MAX_NUM_INTERRUPTS
abbrev pub vector_1_offset : ℕ
vector_1_offset = 0x220

abbrev pub max_num_interrupts : ℕ
max_num_interrupts = 10

module _ {ℓ} {H : Type ℓ} where
  -- The loop of `register_interrupt`, from the place `i` of the vector on.
  unfoldable pub register_from : ℕ → List (Option H) → H → List (Option H) × ℕ
  register_from i [] handler = ([], 0)
  register_from i (none ∷ rest) handler = (some handler ∷ rest, vector_1_offset + i * 32)
  register_from i (some other ∷ rest) handler =
      let (rest', offset) = register_from (suc i) rest handler in (some other ∷ rest', offset)

  -- `register_interrupt`: the vector of ten places and the result.
  unfoldable pub register_interrupt : List (Option H) → H → List (Option H) × ℕ
  unfolding register_from
  register_interrupt handlers handler = register_from 0 handlers handler
