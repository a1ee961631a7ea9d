-- ===== src/Counters/Control.antt =====
-- The counters after each hypercall.
use prpl_hypervisor.Base.{ℕ, ◌≡◌, ◌≢◌, refl, arith}
use prpl_hypervisor.Machine.{Hypervisor, Cpu, from_guest_gpr, reg_a0, reg_a1, to_guest_gpr}
use prpl_hypervisor.Counters.{performance_counter_start, performance_counter_stop}

-- After the start both counters are 0 and have the guest's controls, and the other CP0 registers are as
-- they were.
performance_counter_start_lem :
    (h : Hypervisor)
    → let c = (performance_counter_start h).cpu in
      (c.cp0 25 1 ≡ 0)
      × (c.cp0 25 3 ≡ 0)
      × (c.cp0 25 0 ≡ from_guest_gpr h.cpu reg_a0)
      × (c.cp0 25 2 ≡ from_guest_gpr h.cpu reg_a1)
      × ((reg sel : ℕ) → reg ≢ 25 → c.cp0 reg sel ≡ h.cpu.cp0 reg sel)
unfolding performance_counter_start to_guest_gpr
performance_counter_start_lem h = (refl, refl, refl, refl, λ reg sel n. ground (arith, n))

-- After the stop both counters have the control 0.
performance_counter_stop_lem :
    (mmu : Cpu → ℕ → ℕ) (h : Hypervisor)
    → let c = (performance_counter_stop mmu h).cpu in (c.cp0 25 0 ≡ 0) × (c.cp0 25 2 ≡ 0)
unfolding performance_counter_stop to_guest_gpr
performance_counter_stop_lem mmu h = (refl, refl)
