-- ===== src/Context/Roundtrip.antt =====
-- Saving a guest's context and restoring it later.
use prpl_hypervisor.Base.{
  get_or, ap, sym, ◌∙◌, ℕ, ◌≡◌, refl, ◌≢◌, List, [], ◌∷◌, arith, All, bit_or, map, ==-ne,
}
use prpl_hypervisor.Machine.{Hypervisor, Vcpu, Cpu, mfgc0, get_guest_ctl2, get_epc}
use prpl_hypervisor.Context.{context_save, context_restore, load_context, saved_registers}

-- The registers that `contextRestore` writes.
abbrev pub restored_registers : List (ℕ × ℕ)
restored_registers =
    (4, 0)
    ∷ (6, 0)
    ∷ (8, 0)
    ∷ (12, 0)
    ∷ (12, 1)
    ∷ (12, 2)
    ∷ (12, 3)
    ∷ (13, 0)
    ∷ (14, 0)
    ∷ (14, 2)
    ∷ (15, 1)
    ∷ (16, 0)
    ∷ (17, 0)
    ∷ (16, 3)
    ∷ (30, 0)
    ∷ []

abbrev pub SameRegisters : Cpu → Cpu → Type 0
SameRegisters c d = All (λ r. mfgc0 d r.0 r.1 ≡ mfgc0 c r.0 r.1) restored_registers

load_context_lem :
    (v : Vcpu) (c d : Cpu)
    → v.cp0_registers ≡ map (λ r. mfgc0 c r.0 r.1) saved_registers
    → SameRegisters c (load_context v d)
      × (mfgc0 (load_context v d) 11 0 ≡ mfgc0 d 11 0)
      × (get_guest_ctl2 (load_context v d) ≡ v.guestclt2)
      × (get_epc (load_context v d) ≡ v.pc)
unfolding load_context get_guest_ctl2 get_epc
load_context_lem v c d e = (
  (
    at 0,
    (
      at 1,
      (
        at 2,
        (
          at 4,
          (
            at 5,
            (
              at 6,
              (at 7, (at 8, (at 9, (at 10, (at 11, (at 12, (at 13, (at 14, (at 15, tt))))))))),
            ),
          ),
        ),
      ),
    ),
  ),
  ground arith,
  refl,
  refl,
)
  where
    at :
        (i : ℕ)
        → get_or v.cp0_registers i 0 ≡ get_or (map (λ r. mfgc0 c r.0 r.1) saved_registers) i 0
    at i = ap (λ l. get_or l i 0) e

save_lem :
    (h : Hypervisor)
    → h.vcpu_executing ≢ 0
    → (h.vcpu h.vcpu_executing).init ≡ 0
    → let v = (context_save h).vcpu h.vcpu_executing in
      (v.cp0_registers ≡ map (λ r. mfgc0 h.cpu r.0 r.1) saved_registers)
      × (v.pc ≡ get_epc h.cpu)
      × (v.guestclt2 ≡ bit_or (h.vcpu h.vcpu_executing).guestclt2 (get_guest_ctl2 h.cpu))
unfolding context_save
save_lem h n e = ground arith

restore_lem :
    (cpu_idle : ℕ) (g : Hypervisor)
    → g.vcpu_executing ≢ 0
    → (context_restore cpu_idle g).cpu ≡ load_context (g.vcpu g.vcpu_executing) g.cpu
unfolding context_restore
restore_lem cpu_idle g n = rw (==-ne g.vcpu_executing 0 n)

-- A guest that ran before is saved, and later, in a state where its VCPU still holds the registers
-- and the program counter that were saved, it is restored. Then each of the fifteen registers that
-- are restored has its value from before, execution goes on where it stopped, the interrupts of the
-- VCPU are injected, and the guest's Compare register keeps what the processor held meanwhile.
pub restore-save :
    (cpu_idle : ℕ) (h g : Hypervisor)
    → h.vcpu_executing ≢ 0
    → (h.vcpu h.vcpu_executing).init ≡ 0
    → g.vcpu_executing ≡ h.vcpu_executing
    → (g.vcpu g.vcpu_executing).cp0_registers
      ≡ ((context_save h).vcpu h.vcpu_executing).cp0_registers
    → (g.vcpu g.vcpu_executing).pc ≡ ((context_save h).vcpu h.vcpu_executing).pc
    → let after = (context_restore cpu_idle g).cpu in
      SameRegisters h.cpu after
      × (get_epc after ≡ get_epc h.cpu)
      × (get_guest_ctl2 after ≡ (g.vcpu g.vcpu_executing).guestclt2)
      × (mfgc0 after 11 0 ≡ mfgc0 g.cpu 11 0)
restore-save cpu_idle h g n i same regs pc =
    rw (restore_lem cpu_idle g (λ z. n (sym same ∙ z)))
      (loaded.0, loaded.3 ∙ pc ∙ saved.1, loaded.2, loaded.1)
  where
    saved :
        let v = (context_save h).vcpu h.vcpu_executing in
        (v.cp0_registers ≡ map (λ r. mfgc0 h.cpu r.0 r.1) saved_registers)
        × (v.pc ≡ get_epc h.cpu)
        × (v.guestclt2 ≡ bit_or (h.vcpu h.vcpu_executing).guestclt2 (get_guest_ctl2 h.cpu))
    saved = save_lem h n i

    loaded :
        let v = g.vcpu g.vcpu_executing in
        SameRegisters h.cpu (load_context v g.cpu)
        × (mfgc0 (load_context v g.cpu) 11 0 ≡ mfgc0 g.cpu 11 0)
        × (get_guest_ctl2 (load_context v g.cpu) ≡ v.guestclt2)
        × (get_epc (load_context v g.cpu) ≡ v.pc)
    loaded = load_context_lem (g.vcpu g.vcpu_executing) h.cpu g.cpu (regs ∙ saved.0)
