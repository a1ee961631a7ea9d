-- ===== src/Machine.antt =====
-- The state that the hypervisor's parts share: the structures of arch/mips/common/include/vcpu.h
-- and sys/kernel/include/vm.h, the globals of sys/kernel/scheduler.c, and the processor.
--
-- Objects are found by their address, as `vcpu : ℕ → Vcpu`; NULL is 0.
-- A call that stops the machine (CRITICAL, which waits for a reset) returns no state.
pub mod Sample
use prpl_hypervisor.Base.{
  arith, ◌≡◌, ℕ, ◌^◌, ◌/◌, ◌-◌, List, Bool, true, false, bit_and, ◌==◌, if◌then◌else◌, ◌&&◌,
}
use prpl_hypervisor.Queue.{Queue}

-- `enum vcpu_state`
pub data VcpuState : Type 0 where
  running blocked : VcpuState

abbrev pub is_running : VcpuState → Bool
is_running running = true
is_running blocked = false

-- `message_t` and `message_buffer_t`. `message` holds 256 bytes, `message_list` 5 messages.
pub record Message : Type 0 where
  pub source_id : ℕ
  pub size : ℕ
  pub message : List ℕ

pub record MessageBuffer : Type 0 where
  pub in_index : ℕ
  pub out_index : ℕ
  pub num_messages : ℕ
  pub message_list : List Message

-- `vcpu_t`; `vm` and `gpr` are addresses.
pub record Vcpu : Type 0 where
  pub id : ℕ
  pub priority : ℕ
  pub priority_rem : ℕ
  pub critical : ℕ
  pub state : VcpuState
  pub bgjobs : ℕ
  pub gprshadowset : ℕ
  pub cp0_registers : List ℕ
  pub guestclt2 : ℕ
  pub vm : ℕ
  pub pc : ℕ
  pub init : ℕ
  pub messages : MessageBuffer
  pub gpr : ℕ

-- `struct device_mapping_t`
pub record DeviceMapping : Type 0 where
  pub start_addr : ℕ
  pub size : ℕ

-- `struct tlb_entries`
pub record TlbEntries : Type 0 where
  pub entrylo0 : ℕ
  pub entrylo1 : ℕ
  pub pagemask : ℕ
  pub entryhi : ℕ
  pub coherency : ℕ

-- `struct vmconf_t`. Each array is a list; the code's separate lengths are fields as well.
pub record VmConf : Type 0 where
  pub ram_base : ℕ
  pub os_type : ℕ
  pub priority : ℕ
  pub fast_int_sz : ℕ
  pub fast_interrupts : List ℕ
  pub interrupt_redirect_sz : ℕ
  pub interrupt_redirect : List ℕ
  pub num_tlb_entries : ℕ
  pub tlb : List TlbEntries
  pub devices_mapping_sz : ℕ
  pub devices : List DeviceMapping

-- `tlbentry_t`
pub record TlbEntry : Type 0 where
  pub guestid : ℕ
  pub index : ℕ
  pub entrylo0 : ℕ
  pub lo0flags : ℕ
  pub entrylo1 : ℕ
  pub lo1flags : ℕ
  pub pagemask : ℕ
  pub entryhi : ℕ
  pub coherency : ℕ

-- `vm_t`; the name is left out.
pub record Vm : Type 0 where
  pub id : ℕ
  pub base_addr : ℕ
  pub os_type : ℕ
  pub init : ℕ
  pub vmconf : VmConf
  pub ntlbent : ℕ
  pub tlbentries : List TlbEntry

-- A line of the TLB, as the CP0 registers of a write held it.
pub record TlbLine : Type 0 where
  pub guestctl1 : ℕ
  pub entrylo0 : ℕ
  pub entrylo1 : ℕ
  pub pagemask : ℕ
  pub entryhi : ℕ

-- The processor, as on the PIC32MZ: the CP0 registers of the root and of the guest by register and
-- select, the general registers of each shadow set, the TLB by index, the bytes of memory by
-- physical address, and the words of the devices by address.
pub record Cpu : Type 0 where
  pub cp0 : ℕ → ℕ → ℕ
  pub gcp0 : ℕ → ℕ → ℕ
  pub gpr : ℕ → ℕ → ℕ
  pub tlb : ℕ → TlbLine
  pub byte : ℕ → ℕ
  pub device : ℕ → ℕ

-- `scheduler_info`, and the static variables of scheduler.c. (`virtual_machines_list` is never
-- used.)
pub record Hypervisor : Type 0 where
  pub vcpu : ℕ → Vcpu
  pub vm : ℕ → Vm
  pub vcpu_ready_list : Queue
  pub vcpu_executing : ℕ
  pub tick_count : ℕ
  pub pending : ℕ
  pub cpu : Cpu

module _ {ℓ} {A : Type ℓ} where
  -- A write through a pointer.
  abbrev pub store : (ℕ → A) → ℕ → A → ℕ → A
  store f p v q = if q == p then v else f q

  abbrev pub store₂ : (ℕ → ℕ → A) → ℕ → ℕ → A → ℕ → ℕ → A
  store₂ f i j v k l = if k == i && l == j then v else f k l

abbrev pub put_vcpu : Hypervisor → ℕ → Vcpu → Hypervisor
put_vcpu h p v = record h { vcpu = store h.vcpu p v }

-- `mfc0`, `mtc0`, `mfgc0` and `mtgc0` read and write a register.
abbrev pub mfc0 : Cpu → ℕ → ℕ → ℕ
mfc0 c reg sel = c.cp0 reg sel

abbrev pub mtc0 : Cpu → ℕ → ℕ → ℕ → Cpu
mtc0 c reg sel v = record c { cp0 = store₂ c.cp0 reg sel v }

abbrev pub mfgc0 : Cpu → ℕ → ℕ → ℕ
mfgc0 c reg sel = c.gcp0 reg sel

abbrev pub mtgc0 : Cpu → ℕ → ℕ → ℕ → Cpu
mtgc0 c reg sel v = record c { gcp0 = store₂ c.gcp0 reg sel v }

-- The numbers of the CP0 registers and of the guest's registers in mips_cp0.h.
abbrev pub cp0_guestctl1 : ℕ
cp0_guestctl1 = 10

abbrev pub cp0_guestctl2 : ℕ
cp0_guestctl2 = 10

abbrev pub cp0_guestctl3 : ℕ
cp0_guestctl3 = 10

abbrev pub cp0_guestctl0 : ℕ
cp0_guestctl0 = 12

abbrev pub cp0_srsctl : ℕ
cp0_srsctl = 12

abbrev pub cp0_epc : ℕ
cp0_epc = 14

abbrev pub reg_v0 : ℕ
reg_v0 = 2

abbrev pub reg_a0 : ℕ
reg_a0 = 4

abbrev pub reg_a1 : ℕ
reg_a1 = 5

abbrev pub reg_a2 : ℕ
reg_a2 = 6

-- `SRSCTL_PSS` and its shift.
abbrev pub srsctl_pss : ℕ
srsctl_pss = 0x3c0

-- `getPreviousShadowSet` of hal.c: `rdpgpr` and `wrpgpr` reach this set.
unfoldable pub get_previous_shadow_set : Cpu → ℕ
get_previous_shadow_set c = bit_and (mfc0 c cp0_srsctl 2) srsctl_pss / 2 ^ 6

-- `MoveFromPreviousGuestGPR` and `MoveToPreviousGuestGPR` of the PIC32MZ.
unfoldable pub from_guest_gpr : Cpu → ℕ → ℕ
from_guest_gpr c reg = c.gpr (get_previous_shadow_set c) reg

unfoldable pub to_guest_gpr : Cpu → ℕ → ℕ → Cpu
to_guest_gpr c reg v = record c { gpr = store₂ c.gpr (get_previous_shadow_set c) reg v }

-- `~bits` on `uint32_t`.
abbrev pub complement : ℕ → ℕ
complement bits = 2 ^ 32 - 1 - bits

unfoldable pub get_guest_ctl2 : Cpu → ℕ
get_guest_ctl2 c = mfc0 c cp0_guestctl2 5

unfoldable pub set_guest_ctl2 : Cpu → ℕ → Cpu
set_guest_ctl2 c v = mtc0 c cp0_guestctl2 5 v

unfoldable pub get_epc : Cpu → ℕ
get_epc c = mfc0 c cp0_epc 0

unfoldable pub set_epc : Cpu → ℕ → Cpu
set_epc c epc = mtc0 c cp0_epc 0 epc

-- What the guest reads back from the register that a hypercall wrote.
pub from_guest_gpr-to_guest_gpr : (c : Cpu) (r v : ℕ) → from_guest_gpr (to_guest_gpr c r v) r ≡ v
unfolding from_guest_gpr to_guest_gpr get_previous_shadow_set
from_guest_gpr-to_guest_gpr c r v = ground arith
