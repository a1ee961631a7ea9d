-- ===== src/Processor.antt =====
-- arch/mips/common/hal.c: the set-up of the processor at start-up and the accessors of its registers that
-- the scheduler does not need. Registers are named by their number and select, as in mips_cp0.h.
pub mod Setup
mod Tests
use prpl_hypervisor.Base.{
  ℕ, zero, suc, ◌+◌, ◌-◌, ◌*◌, ◌/◌, ◌%◌, ◌^◌, List, [], ◌∷◌, Option, none, some, add32, sub32,
  bit_and, bit_or, ltb, leb, ◌==◌, ◌&&◌, ◌||◌, not, Bool, if◌then◌else◌,
}
use prpl_hypervisor.Machine.{Cpu, mfc0, mtc0, complement}

-- Whether a bit of a register is set.
abbrev pub has_bit : Cpu → ℕ → ℕ → ℕ → Bool
has_bit c reg sel bit = not (bit_and (mfc0 c reg sel) (2 ^ bit) == 0)

abbrev pub truth : Bool → ℕ
truth b = if b then 1 else 0

-- GUESTCTL0_GM, DEBUG_DM, STATUS_ERL and STATUS_EXL.
abbrev pub guest_mode : Cpu → Bool
guest_mode c = has_bit c 12 6 31

abbrev pub debug_mode : Cpu → Bool
debug_mode c = has_bit c 23 0 30

abbrev pub error_level : Cpu → Bool
error_level c = has_bit c 12 0 2

abbrev pub exception_level : Cpu → Bool
exception_level c = has_bit c 12 0 1

-- `isRootMode`
unfoldable pub is_root_mode : Cpu → ℕ
is_root_mode c = truth (
    not (guest_mode c)
    || (guest_mode c && not (not (debug_mode c) && not (error_level c) && not (exception_level c))))

-- `isEnteringGuestMode`
unfoldable pub is_entering_guest_mode : Cpu → ℕ
is_entering_guest_mode c =
    truth (guest_mode c && not (error_level c) && exception_level c && not (debug_mode c))

-- `hasVZ`
unfoldable pub has_vz : Cpu → ℕ
has_vz c = truth (has_bit c 16 3 23)

-- `hasGuestID`, `isDirectRoot` and `isRootASID`
unfoldable pub has_guest_id : Cpu → ℕ
has_guest_id c = truth (has_bit c 12 6 22)

unfoldable pub is_direct_root : Cpu → ℕ
is_direct_root c = truth (has_bit c 12 6 8)

unfoldable pub is_root_asid : Cpu → ℕ
is_root_asid c = truth (has_bit c 12 6 9)

-- `has1KPageSupport` and `Disable1KPageSupport`
unfoldable pub has_1k_page_support : Cpu → ℕ
has_1k_page_support c = bit_and (mfc0 c 16 3) (2 ^ 4)

unfoldable pub disable_1k_page_support : Cpu → Cpu
disable_1k_page_support c = mtc0 c 5 1 (bit_and (mfc0 c 5 1) (complement (2 ^ 28)))

-- `setGTOffset`; CP0_GTOOFFSET is 12.
unfoldable pub set_gt_offset : Cpu → ℕ → Cpu
set_gt_offset c gtoffset = mtc0 c 12 0 gtoffset

-- `ConfigureGPRShadow`: the processor and the result.
unfoldable pub configure_gpr_shadow : Cpu → Cpu × ℕ
configure_gpr_shadow c =
    if bit_and (mfc0 c 12 2) (0xf * 2 ^ 26) / 2 ^ 26 == 0
    then (c, 0)
    else (mtc0 (mtc0 (mtc0 (mtc0 c 12 2 0) 12 3 0) 12 5 0) 10 6 0, 0)

-- GUESTCTL0_CP0, GUESTCTL0_GT, GUESTCTL0_CF and GUESTCTL0_CG.
abbrev pub guest_access : ℕ → ℕ
guest_access x = bit_or (bit_or (bit_or (bit_or x (2 ^ 28)) (2 ^ 25)) (2 ^ 23)) (2 ^ 24)

-- The stores of `LowLevelProcInit` to GuestCtl0 and GuestCtl0Ext.
unfoldable pub set_guest_access : Cpu → Cpu
set_guest_access c =
    let c1 = mtc0 c 12 6 (guest_access (mfc0 c 12 6)) in
    let c2 = mtc0 c1 11 4 (bit_or (mfc0 c1 11 4) (2 ^ 4)) in
    mtc0 c2 11 4 (bit_or (mfc0 c2 11 4) (2 ^ 3))

-- `LowLevelProcInit`: the processor and the result, a pattern.
unfoldable pub low_level_proc_init : Cpu → Cpu × ℕ
low_level_proc_init c =
    if has_vz c == 0
    then (c, 1)
    else if is_root_mode c == 0
    then (c, 1)
    else if not (is_root_asid c == 0)
    then (c, 2 ^ 32 - 1)
    else if has_guest_id c == 0
    then (c, 1)
    else (let c1 = if has_1k_page_support c == 0 then c else disable_1k_page_support c in
        let (c2, status) = configure_gpr_shadow (set_guest_access c1) in
        if status == 0 then (set_gt_offset c2 0, 0) else (c2, 1))

-- `getCauseBD`, `getInterruptPending` and `getBadVAddress`
unfoldable pub get_cause_bd : Cpu → ℕ
get_cause_bd c = bit_and (mfc0 c 13 0) (2 ^ 31)

unfoldable pub get_interrupt_pending : Cpu → ℕ
get_interrupt_pending c =
    let pending = mfc0 c 13 0 in
    if bit_and (pending / 2 ^ 26) 1 == 1 then 2 ^ 31 else bit_and pending 0x3ff00

unfoldable pub get_bad_vaddress : Cpu → ℕ
get_bad_vaddress c = mfc0 c 8 0

-- `confTimer`
unfoldable pub conf_timer : Cpu → ℕ → Cpu
conf_timer c quantum =
    let count = mfc0 c 9 0 in
    mtc0 c 11 0 (
      if leb quantum (0xffffffff - count)
      then add32 count quantum
      else sub32 quantum (0xffffffff - count))

-- `setInterruptMask`, `clearInterruptMask`, `enableIE` and `setStatusReg`
unfoldable pub set_interrupt_mask : Cpu → ℕ → Cpu
set_interrupt_mask c im = mtc0 c 12 0 (bit_or (mfc0 c 12 0) im)

unfoldable pub clear_interrupt_mask : Cpu → ℕ → Cpu
clear_interrupt_mask c im = mtc0 c 12 0 (bit_and (mfc0 c 12 0) (complement im))

unfoldable pub enable_ie : Cpu → Cpu
enable_ie c = mtc0 c 12 0 (bit_or (mfc0 c 12 0) 1)

unfoldable pub set_status_reg : Cpu → ℕ → Cpu
set_status_reg c bits = mtc0 c 12 0 (bit_or (mfc0 c 12 0) bits)

-- `getGuestID`, `getLowestGShadow`, `getCounter`, `getRandom` and `getBadInstruction`
unfoldable pub get_guest_id : Cpu → ℕ
get_guest_id c = bit_and (mfc0 c 10 4) 0xff

unfoldable pub get_lowest_g_shadow : Cpu → ℕ
get_lowest_g_shadow c = bit_and (mfc0 c 10 6) 0xf

unfoldable pub get_counter : Cpu → ℕ
get_counter c = mfc0 c 9 0

unfoldable pub get_random : Cpu → ℕ
get_random c = mfc0 c 1 0

unfoldable pub get_bad_instruction : Cpu → ℕ
get_bad_instruction c = mfc0 c 8 1

-- The loop of `udelay` over the readings of the counter: how many it takes, if one of them is late enough.
unfoldable pub wait_until : ℕ → List ℕ → Option ℕ
wait_until final [] = none
wait_until final (now ∷ readings) =
    let rest = wait_until final readings in
    if ltb (sub32 now final) (2 ^ 31)
    then some 1
    else elim rest [ none ↦ none | some n ↦ some (suc n) ]

-- `udelay` on a processor of `cpu_freq` Hz, from the first reading on.
unfoldable pub udelay : ℕ → ℕ → ℕ → List ℕ → Option ℕ
unfolding wait_until
udelay cpu_freq usec now readings =
    wait_until (add32 now (usec * (cpu_freq / 1000000) % 2 ^ 32 / 2)) readings
