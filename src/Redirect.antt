-- ===== src/Redirect.antt =====
-- drivers/pic32mz-interrupt-redirect.c: device interrupts become virtual interrupts of the guests that
-- they are redirected to.
--
-- `poke d a v` is what the words of the devices are after the processor stores `v` at `a`: a store to a
-- CLR or SET register changes bits of another register, and that is the hardware's doing.
pub mod Inject
pub mod Reenable
pub mod Setup
mod Tests
use prpl_hypervisor.Base.{
  ℕ, zero, suc, ◌+◌, ◌*◌, ◌/◌, ◌%◌, ◌^◌, List, [], ◌∷◌, ◌++◌, Option, none, some, get_or, add32,
  bit_and, bit_or, ltb, ◌==◌, ◌&&◌, if◌then◌else◌,
}
use prpl_hypervisor.Machine.{
  Hypervisor, Cpu, Vcpu, VmConf, put_vcpu, from_guest_gpr, to_guest_gpr, get_guest_ctl2,
  set_guest_ctl2, complement, reg_v0, reg_a0,
}
use prpl_hypervisor.Tlb.{shl}
use prpl_hypervisor.Hypercall.{register_or_stop}
use prpl_hypervisor.Interrupts.{register_interrupt}
use prpl_hypervisor.Scheduler.{fast_interrupt_delivery, get_vcpu_from_id}

-- `struct interrupt_mapping`; `vcpu` is an address.
pub record InterruptMapping : Type 0 where
  pub irq_number : ℕ
  pub irq_guest : ℕ
  pub vcpu : ℕ

-- The registers of the interrupt controller, of arch/mips/pic32mz/include/pic32mz.h.
abbrev pub ifs : ℕ → ℕ
ifs n = 0xbf800000 + 0x10040 + n * 16

abbrev pub ifsclr : ℕ → ℕ
ifsclr n = 0xbf800000 + 0x10044 + n * 16

abbrev pub iecclr : ℕ → ℕ
iecclr n = 0xbf800000 + 0x100c4 + n * 16

abbrev pub iecset : ℕ → ℕ
iecset n = 0xbf800000 + 0x100c8 + n * 16

abbrev pub ipcclr : ℕ → ℕ
ipcclr n = 0xbf800000 + 0x10144 + n * 16

abbrev pub ipcset : ℕ → ℕ
ipcset n = 0xbf800000 + 0x10148 + n * 16

abbrev pub off : ℕ → ℕ
off n = 0xbf800000 + 0x10540 + n * 4

-- `irq >> 5` and `1 << (irq & 31)`.
abbrev pub bank : ℕ → ℕ
bank irq = irq / 2 ^ 5

abbrev pub line : ℕ → ℕ
line irq = 2 ^ bit_and irq 31

-- `irq_guest << GUESTCLT2_GRIPL_SHIFT`
abbrev pub guest_bits : InterruptMapping → ℕ
guest_bits m = shl m.irq_guest 24

-- The first redirected interrupt of each guest.
abbrev pub guest_user_defined_int_1 : ℕ
guest_user_defined_int_1 = 0x10

-- The virtual interrupt reaches the VCPU, whether it executes or not.
unfoldable pub inject_to : Hypervisor → InterruptMapping → Hypervisor
inject_to h m =
    let v = h.vcpu m.vcpu in
    let bits = guest_bits m in
    if m.vcpu == h.vcpu_executing
    then record h { cpu = set_guest_ctl2 h.cpu (bit_or (get_guest_ctl2 h.cpu) bits) }
    else fast_interrupt_delivery
        (put_vcpu h m.vcpu (record v { guestclt2 = bit_or v.guestclt2 bits })) m.vcpu

abbrev pub is_flagged : Hypervisor → InterruptMapping → ℕ
is_flagged h m = bit_and (h.cpu.device (ifs (bank m.irq_number))) (line m.irq_number)

module _ (poke : (ℕ → ℕ) → ℕ → ℕ → ℕ → ℕ) where
  abbrev pub poke_cpu : Cpu → ℕ → ℕ → Cpu
  poke_cpu c a v = record c { device = poke c.device a v }

  -- A round of the loop of `interrupt_injection`.
  unfoldable pub inject : Hypervisor → InterruptMapping → Hypervisor
  unfolding inject_to
  inject h m =
      let n = bank m.irq_number in
      let b = line m.irq_number in
      let cleared = poke_cpu h.cpu (ifsclr n) b in
      if is_flagged h m == 0
      then h
      else if bit_and (get_guest_ctl2 cleared) (guest_bits m) == 0
      then inject_to (record h { cpu = poke_cpu cleared (iecclr n) b }) m
      else record h { cpu = cleared }

  -- `interrupt_injection`
  unfoldable pub interrupt_injection : Hypervisor → List InterruptMapping → Hypervisor
  interrupt_injection h [] = h
  interrupt_injection h (m ∷ ms) = interrupt_injection (inject h m) ms

  -- The loop of `reenable_interrupt`, whose result is written to the guest's v0.
  unfoldable pub reenable : Hypervisor → ℕ → List InterruptMapping → Hypervisor
  reenable h interrupt [] = record h { cpu = to_guest_gpr h.cpu reg_v0 1 }
  reenable h interrupt (m ∷ ms) =
      let v = h.vcpu m.vcpu in
      let c = poke_cpu h.cpu (iecset (bank m.irq_number)) (line m.irq_number) in
      let rest = reenable h interrupt ms in
      if h.vcpu_executing == m.vcpu && interrupt == m.irq_guest
      then record (put_vcpu h m.vcpu
          (record v { guestclt2 = bit_and v.guestclt2 (complement (guest_bits m)) })) {
            cpu = to_guest_gpr c reg_v0 0;
          }
      else rest

  -- `reenable_interrupt`
  unfoldable pub reenable_interrupt : List InterruptMapping → Hypervisor → Hypervisor
  unfolding reenable
  reenable_interrupt mapping h = reenable h (from_guest_gpr h.cpu reg_a0) mapping

-- The first loop of `interrupt_redirect_init`: the interrupts of the VMs `i + 1` to `i + left`.
unfoldable pub mapping_size : Hypervisor → ℕ → ℕ → ℕ
mapping_size h i zero = 0
mapping_size h i (suc left) =
    let conf = (h.vm (h.vcpu (get_vcpu_from_id h (add32 i 1))).vm).vmconf in
    add32 conf.interrupt_redirect_sz (mapping_size h (add32 i 1) left)

module _ (poke : (ℕ → ℕ) → ℕ → ℕ → ℕ → ℕ) (offset : ℕ) where
  -- The stores that set up the interrupt `irq`.
  unfoldable pub enable_irq : (ℕ → ℕ) → ℕ → ℕ → ℕ
  enable_irq d irq =
      let priority = shl 0x1f (8 * bit_and irq 3) in
      let d1 = poke d (ipcclr (irq / 2 ^ 2)) priority in
      let d2 = poke d1 (ipcset (irq / 2 ^ 2)) priority in
      let d3 = poke d2 (ifsclr (bank irq)) (line irq) in
      let d4 = poke d3 (off irq) offset in poke d4 (iecset (bank irq)) (line irq)

  -- The inner loop for the VCPU at `p`, from its interrupt `j` on.
  unfoldable pub redirect_vm : ℕ → ℕ → ℕ → List ℕ → (ℕ → ℕ) → List InterruptMapping × (ℕ → ℕ)
  unfolding enable_irq
  redirect_vm p j zero irqs d = ([], d)
  redirect_vm p j (suc left) [] d = ([], d)
  redirect_vm p j (suc left) (irq ∷ irqs) d =
      let (ms, d') = redirect_vm p (suc j) left irqs (enable_irq d irq) in
      (record { irq_number = irq; irq_guest = shl guest_user_defined_int_1 j; vcpu = p } ∷ ms, d')

  -- The outer loop, for the VMs `i + 1` to `i + left`.
  unfoldable pub redirect_all : Hypervisor → ℕ → ℕ → (ℕ → ℕ) → List InterruptMapping × (ℕ → ℕ)
  unfolding redirect_vm
  redirect_all h i zero d = ([], d)
  redirect_all h i (suc left) d =
      let p = get_vcpu_from_id h (add32 i 1) in
      let conf = (h.vm (h.vcpu p).vm).vmconf in
      let (ms, d') = redirect_vm p 0 conf.interrupt_redirect_sz conf.interrupt_redirect d in
      let (rest, d'') = redirect_all h (add32 i 1) left d' in (ms ++ rest, d'')

-- What the initialisation leaves: the static variables of the driver, the two tables of handlers, and
-- the words of the devices.
pub record Redirection {ℓ κ} (I : Type ℓ) (H : Type κ) : Type (ℓ ⊔ κ) where
  pub interrupt_mapping_sz : ℕ
  pub interrupt_mapping_list : List InterruptMapping
  pub vector : List (Option I)
  pub table : List (Option H)
  pub device : ℕ → ℕ

abbrev pub unredirected {ℓ κ} :
    {I : Type ℓ} {H : Type κ} → ℕ → List (Option I) → List (Option H) → (ℕ → ℕ) → Redirection I H
unredirected size vector table device = record {
  interrupt_mapping_sz = size;
  interrupt_mapping_list = [];
  vector = vector;
  table = table;
  device = device;
}

module _ {ℓ κ} {I : Type ℓ} {H : Type κ} (poke : (ℕ → ℕ) → ℕ → ℕ → ℕ → ℕ) where
  -- `interrupt_redirect_init` for `machines` VMs, with its interrupt handler and its hypercall;
  -- `mapping_at` is what malloc answers. A fault at NULL is no result.
  unfoldable pub interrupt_redirect_init :
      ℕ → I → H → ℕ → Hypervisor → List (Option I) → List (Option H) → Option (Redirection I H)
  interrupt_redirect_init machines injection reenabling mapping_at h vector table =
      let size = mapping_size h 0 machines in
      let (vector', offset) = register_interrupt vector injection in
      let (mapping, device) = redirect_all poke offset h 0 machines h.cpu.device in
      if size == 0
      then some (unredirected size vector table h.cpu.device)
      else register_or_stop table reenabling 13
          (λ t. some (unredirected size vector' t h.cpu.device))
          (λ t.
            if mapping_at == 0
            then none
            else some (record {
              interrupt_mapping_sz = size;
              interrupt_mapping_list = mapping;
              vector = vector';
              table = t;
              device = device;
            }))
