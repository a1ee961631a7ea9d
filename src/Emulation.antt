-- ===== src/Emulation.antt =====
-- arch/mips/baikal-t1/instruction_emulation.c and arch/mips/baikal-t1/gpr_context.c: the instructions of
-- guests that the hypervisor emulates on the Baikal-T1, where the registers of the guest are saved below
-- the stack of the hypervisor. `top` is the linker script's `_stack`.
pub mod Effect
pub mod Saved
mod Tests
use prpl_hypervisor.Base.{ℕ, zero, suc, ◌+◌, ◌-◌, ◌*◌, ◌/◌, ◌^◌, bit_and, ◌==◌, if◌then◌else◌}
use prpl_hypervisor.Machine.{complement, store, store₂}
use prpl_hypervisor.Tlb.{shl}

-- The processor: the CP0 registers of the root and of the guest, and the words of memory by address.
pub record Baikal : Type 0 where
  pub cp0 : ℕ → ℕ → ℕ
  pub gcp0 : ℕ → ℕ → ℕ
  pub word_at : ℕ → ℕ

-- The fields of an instruction, of arch/mips/baikal-t1/include/instruction_emulation.h.
abbrev pub opcode : ℕ → ℕ
opcode i = i / 2 ^ 26

abbrev pub func : ℕ → ℕ
func i = bit_and i 0x3f

abbrev pub rs : ℕ → ℕ
rs i = bit_and (i / 2 ^ 21) 0x1f

abbrev pub rt : ℕ → ℕ
rt i = bit_and (i / 2 ^ 16) 0x1f

abbrev pub rd : ℕ → ℕ
rd i = bit_and (i / 2 ^ 11) 0x1f

abbrev pub sel : ℕ → ℕ
sel i = bit_and i 0x7

abbrev pub co : ℕ → ℕ
co i = bit_and (i / 2 ^ 25) 0x1

-- SRSCLT_HSS
abbrev pub srsctl_hss : ℕ
srsctl_hss = shl 0xf 26

-- GPR_SIZE: 32 registers, HI and LO.
abbrev pub gpr_size : ℕ
gpr_size = 34 * 4

-- `co_instructions`; 0x20 is `wait`.
unfoldable pub co_instructions : ℕ → ℕ
co_instructions i = if func i == 0x20 then 1 else 1

-- `instr_not_supported`, when an emulation fails.
abbrev pub checked : Baikal × ℕ → Baikal × ℕ
checked (c, status) = if status == 0 then (c, 0) else (c, 1)

-- The loops of `gpr_context_restore` and `gpr_context_save`, from the word `i` and the register at `p`.
unfoldable pub copy_gprs : (ℕ → ℕ) → ℕ → ℕ → ℕ → ℕ → ℕ
copy_gprs words to from zero = words
copy_gprs words to from (suc left) =
    copy_gprs (store words to (words from)) (to + 4) (from + 4) left

module _ (top : ℕ) where
  -- `MoveToPreviousGuestGPR` and `MoveFromPreviousGuestGPR`
  unfoldable pub move_to_gpr : Baikal → ℕ → ℕ → Baikal
  move_to_gpr c reg value = record c { word_at = store c.word_at (top - gpr_size + 4 * reg) value }

  unfoldable pub move_from_gpr : Baikal → ℕ → ℕ
  move_from_gpr c reg = c.word_at (top - gpr_size + 4 * reg)

  -- `gpr_context_restore`
  unfoldable pub gpr_context_restore : Baikal → ℕ → Baikal
  unfolding copy_gprs
  gpr_context_restore c p = record c { word_at = copy_gprs c.word_at (top - gpr_size) p 34 }

  -- `gpr_context_save`
  unfoldable pub gpr_context_save : Baikal → ℕ → Baikal
  unfolding copy_gprs
  gpr_context_save c p = record c { word_at = copy_gprs c.word_at p (top - gpr_size) 34 }

  -- `mfc0_instructions`: the processor and the result.
  unfoldable pub mfc0_instructions : Baikal → ℕ → Baikal × ℕ
  unfolding move_to_gpr
  mfc0_instructions c i =
      if rd i == 12
      then if sel i == 2
        then (move_to_gpr c (rt i) (bit_and (c.cp0 12 2) (complement srsctl_hss)), 0)
        else (c, 1)
      else if rd i == 15
      then if sel i == 0 then (move_to_gpr c (rt i) (c.cp0 15 0), 0) else (c, 1)
      else if rd i == 18
      then if sel i == 0
        then (move_to_gpr c (rt i) (c.gcp0 18 0), 0)
        else if sel i == 1
        then (move_to_gpr c (rt i) 0, 0)
        else (c, 1)
      else if rd i == 19
      then if sel i == 0
        then (move_to_gpr c (rt i) (c.gcp0 19 0), 0)
        else if sel i == 1
        then (move_to_gpr c (rt i) 0, 0)
        else (c, 1)
      else (c, 1)

  -- `mtc0_instructions`: the processor and the result.
  unfoldable pub mtc0_instructions : Baikal → ℕ → Baikal × ℕ
  unfolding move_from_gpr
  mtc0_instructions c i =
      if rd i == 18
      then if sel i == 0
        then (record c { gcp0 = store₂ c.gcp0 18 0 (move_from_gpr c (rd i)) }, 0)
        else if sel i == 1
        then (c, 0)
        else (c, 1)
      else if rd i == 19
      then if sel i == 0
        then (record c { gcp0 = store₂ c.gcp0 19 0 (move_from_gpr c (rd i)) }, 0)
        else if sel i == 1
        then (c, 0)
        else (c, 1)
      else (c, 1)

  -- `__instruction_emulation`; the instruction is BadInstr, CP0 8, select 1. 0x10 is the opcode CP0, and 4
  -- and 0 are MTC and MFC.
  unfoldable pub instruction_emulation : Baikal → Baikal × ℕ
  unfolding co_instructions mfc0_instructions mtc0_instructions
  instruction_emulation c =
      let i = c.cp0 8 1 in
      if opcode i == 0x10
      then if co i == 1
        then checked (c, co_instructions i)
        else if rs i == 4
        then checked (mtc0_instructions c i)
        else if rs i == 0
        then checked (mfc0_instructions c i)
        else (c, 1)
      else (c, 1)
