-- ===== src/Context.antt =====
-- arch/mips/common/vcpu.c: the context of the guest is saved in its VCPU and restored from it.
-- On the PIC32MZ `gpr_context_save` and `gpr_context_restore` of boot.S return at once, since each
-- guest has a set of shadow registers, and nothing stands for them here.
pub mod Roundtrip
mod Tests
use prpl_hypervisor.Base.{
  ℕ, ◌*◌, ◌%◌, ◌^◌, List, [], ◌∷◌, map, get_or, bit_and, bit_or, ◌==◌, if◌then◌else◌,
}
use prpl_hypervisor.Machine.{
  Hypervisor, Vcpu, Cpu, put_vcpu, mfc0, mtc0, mfgc0, mtgc0, complement, cp0_guestctl0,
  cp0_guestctl1, cp0_guestctl3, cp0_srsctl, srsctl_pss, get_guest_ctl2, set_guest_ctl2, get_epc,
  set_epc,
}

-- The registers of the guest in the order of `cp0_registers`: register and select.
abbrev pub saved_registers : List (ℕ × ℕ)
saved_registers =
    (4, 0)
    ∷ (6, 0)
    ∷ (8, 0)
    ∷ (11, 0)
    ∷ (12, 0)
    ∷ (12, 1)
    ∷ (12, 2)
    ∷ (12, 3)
    ∷ (13, 0)
    ∷ (14, 0)
    ∷ (14, 2)
    ∷ (15, 1)
    ∷ (16, 0)
    ∷ (17, 0)
    ∷ (16, 3)
    ∷ (30, 0)
    ∷ []

-- `contextSave`
unfoldable pub context_save : Hypervisor → Hypervisor
unfolding get_guest_ctl2 get_epc
context_save h =
    let v = h.vcpu h.vcpu_executing in
    if h.vcpu_executing == 0
    then h
    else if v.init == 0
    then put_vcpu h h.vcpu_executing (record v {
      cp0_registers = map (λ r. mfgc0 h.cpu r.0 r.1) saved_registers;
      guestclt2 = bit_or v.guestclt2 (get_guest_ctl2 h.cpu);
      pc = get_epc h.cpu;
    })
    else h

-- GUEST_TIMER_INT << GUESTCLT2_GRIPL_SHIFT
abbrev pub timer_bit : ℕ
timer_bit = 1 * 2 ^ 24

-- `setGuestID`, `setGuestMode`, `clearGuestMode`, `setPreviousShadowSet` and `setLowestGShadow` of
-- arch/mips/common/hal.c.
unfoldable pub set_guest_id : Cpu → ℕ → Cpu
set_guest_id c id =
    mtc0 c cp0_guestctl1 4 (bit_or (bit_and (mfc0 c cp0_guestctl1 4) (complement 0xff)) id)

unfoldable pub set_guest_mode : Cpu → Cpu
set_guest_mode c =
    mtc0 c cp0_guestctl0 6 (
      bit_or (bit_or (bit_or (bit_or (mfc0 c cp0_guestctl0 6) (2 ^ 31)) (2 ^ 28)) (2 ^ 25))
        (2 ^ 12))

unfoldable pub clear_guest_mode : Cpu → Cpu
clear_guest_mode c = mtc0 c cp0_guestctl0 6 (bit_and (mfc0 c cp0_guestctl0 6) (complement (2 ^ 31)))

unfoldable pub set_previous_shadow_set : Cpu → ℕ → Cpu
set_previous_shadow_set c set =
    mtc0 c cp0_srsctl 2
      (bit_or (bit_and (mfc0 c cp0_srsctl 2) (complement srsctl_pss)) (set * 2 ^ 6 % 2 ^ 32))

unfoldable pub set_lowest_g_shadow : Cpu → ℕ → Cpu
set_lowest_g_shadow c set = mtc0 c cp0_guestctl3 6 (bit_and set 0xf)

-- `config_idle_cpu`, with the address of `cpu_idle`.
unfoldable pub config_idle_cpu : ℕ → Cpu → Cpu
unfolding set_guest_id clear_guest_mode set_epc
config_idle_cpu cpu_idle c = set_epc (clear_guest_mode (set_guest_id c 0)) cpu_idle

unfoldable pub select_shadow_set : Vcpu → Cpu → Cpu
unfolding set_previous_shadow_set set_lowest_g_shadow
select_shadow_set v c =
    if v.gprshadowset == 0
    then c
    else set_lowest_g_shadow (set_previous_shadow_set c v.gprshadowset) v.gprshadowset

-- The calls of `mtgc0`. Register 11, select 0 is not among them.
unfoldable pub restore_registers : List ℕ → Cpu → Cpu
restore_registers saved c0 =
    let at = λ (i : ℕ). get_or saved i 0 in
    let c1 = mtgc0 c0 4 0 (at 0) in
    let c2 = mtgc0 c1 6 0 (at 1) in
    let c3 = mtgc0 c2 8 0 (at 2) in
    let c4 = mtgc0 c3 12 0 (at 4) in
    let c5 = mtgc0 c4 12 1 (at 5) in
    let c6 = mtgc0 c5 12 2 (at 6) in
    let c7 = mtgc0 c6 12 3 (at 7) in
    let c8 = mtgc0 c7 13 0 (at 8) in
    let c9 = mtgc0 c8 14 0 (at 9) in
    let c10 = mtgc0 c9 14 2 (at 10) in
    let c11 = mtgc0 c10 15 1 (at 11) in
    let c12 = mtgc0 c11 16 0 (at 12) in
    let c13 = mtgc0 c12 17 0 (at 13) in let c14 = mtgc0 c13 16 3 (at 14) in mtgc0 c14 30 0 (at 15)

unfoldable pub load_context : Vcpu → Cpu → Cpu
unfolding select_shadow_set set_guest_id set_guest_mode restore_registers set_guest_ctl2 set_epc
load_context v c =
    let c1 = set_guest_mode (set_guest_id (select_shadow_set v c) v.id) in
    set_epc (set_guest_ctl2 (restore_registers v.cp0_registers c1) v.guestclt2) v.pc

-- `contextRestore`
unfoldable pub context_restore : ℕ → Hypervisor → Hypervisor
unfolding load_context
context_restore cpu_idle h =
    let v = h.vcpu h.vcpu_executing in
    if h.vcpu_executing == 0 then record h { cpu = config_idle_cpu cpu_idle h.cpu } else record h {
      vcpu =
          (put_vcpu h h.vcpu_executing
            (record v { init = 0; guestclt2 = bit_and v.guestclt2 (complement timer_bit) })).vcpu;
      cpu = load_context v h.cpu;
    }
