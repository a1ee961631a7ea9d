-- ===== src/Processor/Setup.antt =====
-- What `LowLevelProcInit` leaves, and the timer.
use prpl_hypervisor.Base.{
  ℕ, zero, suc, List, [], ◌∷◌, some, length, get_or, sub32, ltb, lt→ltb, ◌+◌, ◌-◌, ◌^◌, ◌≤◌, ◌<◌,
  ◌≡◌, ◌≢◌, refl, sym, ap, ◌∙◌, subst, ◌⊎◌, inl, inr, arith, bit_and, bit_or, ◌==◌, ==-ne,
  Bool-cases, if◌then◌else◌, bit_and-bit_and_complement,
}
use native.Mathlib.Decide.{ℕ_discrete}
use prpl_hypervisor.Machine.{Cpu, mfc0}
use prpl_hypervisor.Processor.{
  has_vz, is_root_mode, is_root_asid, has_guest_id, has_1k_page_support, disable_1k_page_support,
  set_guest_access, guest_access, configure_gpr_shadow, set_gt_offset, low_level_proc_init,
  conf_timer, is_entering_guest_mode, set_interrupt_mask, clear_interrupt_mask, wait_until,
}

-- The processor has what the hypervisor needs.
abbrev pub IsSupported : Cpu → Type 0
IsSupported c = (has_vz c ≢ 0) × (is_root_mode c ≢ 0) × (is_root_asid c ≡ 0) × (has_guest_id c ≢ 0)

-- What the set-up leaves.
pub record SetUp (c c' : Cpu) : Type 0 where
  pub access : mfc0 c' 12 6 ≡ guest_access (mfc0 c 12 6)
  pub status : mfc0 c' 12 0 ≡ 0
  pub offset : mfc0 c' 12 7 ≡ mfc0 c 12 7
  pub guest : c'.gcp0 ≡ c.gcp0
  pub tlb : c'.tlb ≡ c.tlb

paged : Cpu → Cpu
paged c = if has_1k_page_support c == 0 then c else disable_1k_page_support c

finished : Cpu → Cpu
finished c = set_gt_offset (configure_gpr_shadow (set_guest_access c)).0 0

configure_status : (c : Cpu) → (configure_gpr_shadow c).1 ≡ 0
unfolding configure_gpr_shadow
configure_status c = ground arith

-- What the step before the stores keeps.
record Keeps (c c' : Cpu) : Type 0 where
  access : mfc0 c' 12 6 ≡ mfc0 c 12 6
  offset : mfc0 c' 12 7 ≡ mfc0 c 12 7
  guest : c'.gcp0 ≡ c.gcp0
  tlb : c'.tlb ≡ c.tlb

paged-Keeps : (c : Cpu) → Keeps c (paged c)
unfolding paged disable_1k_page_support
paged-Keeps c = record {
  access = ground arith;
  offset = ground arith;
  guest = ground arith;
  tlb = ground arith;
}

finished-SetUp : (c : Cpu) → SetUp c (finished c)
unfolding finished set_gt_offset configure_gpr_shadow set_guest_access
finished-SetUp c = record {
  access = ground arith;
  status = ground arith;
  offset = ground arith;
  guest = ground arith;
  tlb = ground arith;
}

SetUp-paged : (c c1 c' : Cpu) → Keeps c c1 → SetUp c1 c' → SetUp c c'
SetUp-paged c c1 c' k s = record {
  access = s.access ∙ ap guest_access k.access;
  status = s.status;
  offset = s.offset ∙ k.offset;
  guest = s.guest ∙ k.guest;
  tlb = s.tlb ∙ k.tlb;
}

low_level_proc_init-finished :
    (c : Cpu) → IsSupported c → low_level_proc_init c ≡ (finished (paged c), 0)
unfolding low_level_proc_init finished paged
low_level_proc_init-finished c (vz, root, asid, id) =
    rw
      (
        ==-ne (has_vz c) 0 vz,
        ==-ne (is_root_mode c) 0 root,
        asid,
        ==-ne (has_guest_id c) 0 id,
        configure_status (set_guest_access (paged c)),
      )
      refl

-- A processor that is not supported is left as it is.
abbrev pub Refuses : Cpu → Type 0
Refuses c = (n : ℕ) × (n ≢ 0) × (low_level_proc_init c ≡ (c, n))

low_level_proc_init_cases : (c : Cpu) → IsSupported c ⊎ ((¬ IsSupported c) × Refuses c)
unfolding low_level_proc_init
low_level_proc_init_cases c = elim (ℕ_discrete (has_vz c) 0) [
  | yes z ↦ inr ((λ s. s.0 z), (1, (λ e. omega arith), rw z refl))
  | no vz ↦ elim (ℕ_discrete (is_root_mode c) 0) [
    | yes z ↦ inr ((λ s. s.1 z), (1, (λ e. omega arith), rw (==-ne (has_vz c) 0 vz, z) refl))
    | no root ↦ elim (ℕ_discrete (is_root_asid c) 0) [
      | no asid ↦ inr (
        (λ s. asid s.2),
        (
          2 ^ 32 - 1,
          (λ e. omega arith),
          rw (==-ne (has_vz c) 0 vz, ==-ne (is_root_mode c) 0 root, ==-ne (is_root_asid c) 0 asid)
              refl,
        ),
      )
      | yes asid ↦ elim (ℕ_discrete (has_guest_id c) 0) [
        | yes z ↦ inr (
          (λ s. s.3 z),
          (
            1,
            (λ e. omega arith),
            rw (==-ne (has_vz c) 0 vz, ==-ne (is_root_mode c) 0 root, asid, z) refl,
          ),
        )
        | no id ↦ inl (vz, root, asid, id)
      ]
    ]
  ]
]

-- LowLevelProcInit refuses a processor that lacks the virtualization module, is not in root mode, has a
-- root ASID or no guest id, with a result other than 0, and changes nothing. For any other it returns 0:
-- guests get access to their registers, and the guest's registers and the TLB are as they were. It
-- also writes 0 to Status, and leaves CP0 12, select 7, as it was.
pub low_level_proc_init_lem :
    (c : Cpu)
    → let (c', status) = low_level_proc_init c in
      (IsSupported c × (status ≡ 0) × SetUp c c') ⊎ ((¬ IsSupported c) × (status ≢ 0) × (c' ≡ c))
low_level_proc_init_lem c = elim (low_level_proc_init_cases c) [
  | inl supported ↦
      subst
        (λ r.
          (IsSupported c × (r.1 ≡ 0) × SetUp c r.0) ⊎ ((¬ IsSupported c) × (r.1 ≢ 0) × (r.0 ≡ c)))
        (sym (low_level_proc_init-finished c supported))
        (inl (
          supported,
          refl,
          SetUp-paged c (paged c) (finished (paged c)) (paged-Keeps c) (finished-SetUp (paged c)),
        ))
  | inr (lacking, (n, nonzero, same)) ↦
      subst
        (λ r.
          (IsSupported c × (r.1 ≡ 0) × SetUp c r.0) ⊎ ((¬ IsSupported c) × (r.1 ≢ 0) × (r.0 ≡ c)))
        (sym same) (inr (lacking, nonzero, refl))
]

-- Interrupts that are masked in and then out are out.
pub clear-set_interrupt_mask :
    (c : Cpu) (im : ℕ)
    → im < 2 ^ 32
    → bit_and (mfc0 (clear_interrupt_mask (set_interrupt_mask c im) im) 12 0) im ≡ 0
unfolding clear_interrupt_mask set_interrupt_mask
clear-set_interrupt_mask c im l = bit_and-bit_and_complement 32 (bit_or (mfc0 c 12 0) im) im l

-- A processor that enters guest mode is still in root mode.
pub is_entering-is_root_mode : (c : Cpu) → is_entering_guest_mode c ≡ 1 → is_root_mode c ≡ 1
unfolding is_entering_guest_mode is_root_mode
is_entering-is_root_mode c e = ground (arith, e)

-- The timer is set a quantum after the counter, or one more if the counter wraps in between.
pub conf_timer_lem :
    (c : Cpu) (quantum : ℕ)
    → quantum < 2 ^ 32
    → mfc0 c 9 0 < 2 ^ 32
    → let compared = mfc0 (conf_timer c quantum) 11 0 in
      ((mfc0 c 9 0 + quantum < 2 ^ 32) × (compared ≡ mfc0 c 9 0 + quantum))
      ⊎ ((2 ^ 32 ≤ mfc0 c 9 0 + quantum) × (compared ≡ mfc0 c 9 0 + quantum + 1 - 2 ^ 32))
unfolding conf_timer
conf_timer_lem c quantum l k = ground arith

-- The wait of udelay is over at the latest with the first reading that it takes for late.
pub wait_until_lem :
    (final : ℕ) (readings : List ℕ) (i : ℕ)
    → i < length readings
    → sub32 (get_or readings i 0) final < 2 ^ 31
    → (n : ℕ) × (wait_until final readings ≡ some n) × (n ≤ suc i)
unfolding wait_until
wait_until_lem final [] i l late = absurd (omega arith)
wait_until_lem final (now ∷ readings) zero l late =
    (1, rw (lt→ltb (sub32 now final) (2 ^ 31) late) refl, omega arith)
wait_until_lem final (now ∷ readings) (suc i) l late =
    let (n, e, le) = wait_until_lem final readings i (omega arith) late in
    elim (Bool-cases (ltb (sub32 now final) (2 ^ 31))) [
      | inl t ↦ (1, rw t refl, omega arith)
      | inr t ↦ (suc n, rw (t, e) refl, omega arith)
    ]
