-- ===== src/VirtualIo.antt =====
-- drivers/virtual-io.c: hypercalls by which a guest reads and writes the words of the devices that its
-- VM is configured with. `confs` is `vmconf_p`, the configuration of each VM by its id less one.
pub mod Access
mod Tests
use prpl_hypervisor.Base.{
  ℕ, zero, suc, ◌+◌, Bool, true, false, List, [], ◌∷◌, Option, none, some, get_or, add32, sub32,
  negative, leb, ltb, ◌%◌, ◌==◌, ◌&&◌, if◌then◌else◌,
}
use prpl_hypervisor.Machine.{
  Hypervisor, Cpu, VmConf, DeviceMapping, store, from_guest_gpr, to_guest_gpr, reg_v0, reg_a0,
  reg_a1,
}
use prpl_hypervisor.Scheduler.{get_vcpu_from_id}
use prpl_hypervisor.Hypercall.{register_or_stop}

abbrev pub address_not_allowed : ℕ
address_not_allowed = negative 4

-- A place of `vmconf_p` that the program has not filled.
abbrev pub no_conf : VmConf
no_conf = record {
  ram_base = 0;
  os_type = 0;
  priority = 0;
  fast_int_sz = 0;
  fast_interrupts = [];
  interrupt_redirect_sz = 0;
  interrupt_redirect = [];
  num_tlb_entries = 0;
  tlb = [];
  devices_mapping_sz = 0;
  devices = [];
}

-- The condition in the loops, whose sum wraps.
unfoldable pub is_mapped : DeviceMapping → ℕ → Bool
is_mapped d addr = leb d.start_addr addr && leb addr (add32 d.start_addr d.size)

-- The loop: whether one of the first `sz` devices has the address.
unfoldable pub is_allowed : List DeviceMapping → ℕ → ℕ → Bool
unfolding is_mapped
is_allowed devices zero addr = false
is_allowed [] (suc sz) addr = false
is_allowed (d ∷ ds) (suc sz) addr = if is_mapped d addr then true else is_allowed ds sz addr

abbrev pub own_conf : List VmConf → Hypervisor → VmConf
own_conf confs h = get_or confs (sub32 (h.vcpu h.vcpu_executing).id 1) no_conf

-- An access to a word of a device. At an address that no word has, the processor raises an exception
-- in place of it, and the handler does not return.
abbrev pub at_word : {A : Type 0} → ℕ → A → Option A
at_word addr a = if addr % 4 == 0 then some a else none

-- `read_address`
unfoldable pub read_address : List VmConf → Hypervisor → Option Hypervisor
read_address confs h =
    let conf = own_conf confs h in
    let addr = from_guest_gpr h.cpu reg_a0 in
    if is_allowed conf.devices conf.devices_mapping_sz addr
    then at_word addr (record h { cpu = to_guest_gpr h.cpu reg_v0 (h.cpu.device addr) })
    else some h

-- `write_address`. What a write does to the words of the devices, where some registers change others,
-- is the argument `poke`.
unfoldable pub write_address :
    ((ℕ → ℕ) → ℕ → ℕ → ℕ → ℕ) → List VmConf → Hypervisor → Option Hypervisor
write_address poke confs h =
    let conf = own_conf confs h in
    let addr = from_guest_gpr h.cpu reg_a0 in
    let value = from_guest_gpr h.cpu reg_a1 in
    if is_allowed conf.devices conf.devices_mapping_sz addr
    then at_word addr (record h {
      cpu = to_guest_gpr (record h.cpu { device = poke h.cpu.device addr value }) reg_v0 0;
    })
    else some (record h { cpu = to_guest_gpr h.cpu reg_v0 address_not_allowed })

-- The loop of `virtual_io_init`: the configurations of the VMs `i + 1` to `i + left`.
unfoldable pub local_confs : Hypervisor → ℕ → ℕ → List VmConf
local_confs h i zero = []
local_confs h i (suc left) =
    (h.vm (h.vcpu (get_vcpu_from_id h (add32 i 1))).vm).vmconf ∷ local_confs h (add32 i 1) left

module _ {ℓ} {H : Type ℓ} where
  -- `virtual_io_init`: the table with the handlers `write` and `read`, and `vmconf_p` unless a
  -- registration fails, for `machines` VMs.
  unfoldable pub virtual_io_init :
      ℕ → H → H → Hypervisor → List (Option H) → List (Option H) × Option (List VmConf)
  virtual_io_init machines write read h table =
      register_or_stop table write 11 (λ t. (t, none))
        (λ t1.
          register_or_stop t1 read 12 (λ t. (t, none))
            (λ t2. (t2, some (local_confs h 0 machines))))
