-- ===== src/Counters.antt =====
-- drivers/performance-counter.c: the hypercalls that start and stop the performance counters, which are
-- CP0 register 25. `mmu` is the translation of addresses by the hardware; words are little-endian.
mod Control
use prpl_hypervisor.Base.{ℕ, ◌/◌, ◌%◌, ◌^◌, List, [], ◌∷◌, ◌++◌}
use prpl_hypervisor.Machine.{Hypervisor, Cpu, mfc0, mtc0, from_guest_gpr, reg_a0, reg_a1, reg_v0}
use prpl_hypervisor.Tlb.{tlb_create_entry}
use prpl_hypervisor.InterVm.{reply, write_bytes}

-- CP0_PERFCTL0 and CP0_PERFCTL1
abbrev pub cp0_perfctl : ℕ
cp0_perfctl = 25

unfoldable pub performance_counter_start : Hypervisor → Hypervisor
performance_counter_start h =
    let control0 = from_guest_gpr h.cpu reg_a0 in
    let control1 = from_guest_gpr h.cpu reg_a1 in
    let c = mtc0 (mtc0 h.cpu cp0_perfctl 1 0) cp0_perfctl 3 0 in
    let c' = mtc0 (mtc0 c cp0_perfctl 0 control0) cp0_perfctl 2 control1 in
    reply (record h { cpu = c' }) reg_v0 0

abbrev pub word_bytes : ℕ → List ℕ
word_bytes w = w % 2 ^ 8 ∷ w / 2 ^ 8 % 2 ^ 8 ∷ w / 2 ^ 16 % 2 ^ 8 ∷ w / 2 ^ 24 % 2 ^ 8 ∷ []

module _ (mmu : Cpu → ℕ → ℕ) where
  unfoldable pub performance_counter_stop : Hypervisor → Hypervisor
  unfolding write_bytes
  performance_counter_stop h =
      let vm = h.vm (h.vcpu h.vcpu_executing).vm in
      let (c, mapped) = tlb_create_entry h.cpu (from_guest_gpr h.cpu reg_a0) vm.base_addr 8 0xf 1 in
      let counts = word_bytes (mfc0 c cp0_perfctl 1) ++ word_bytes (mfc0 c cp0_perfctl 3) in
      let c' = write_bytes (mmu c) c mapped counts in
      let stopped = mtc0 (mtc0 c' cp0_perfctl 0 0) cp0_perfctl 2 0 in
      reply (record h { cpu = stopped }) reg_v0 0
