-- ===== src/VirtualIo/Access.antt =====
-- Which addresses a guest reaches by `write_address`.
use prpl_hypervisor.Base.{ℕ, ◌+◌, ◌≤◌, ◌<◌, ◌^◌, ◌≡◌, ◌⊎◌, List, [], ◌∷◌, All, length}
use prpl_hypervisor.Machine.{Hypervisor, VmConf, DeviceMapping, from_guest_gpr, reg_a0}

-- The device does not reach the end of the address space.
abbrev pub Fits : DeviceMapping → Type 0
Fits d = d.start_addr + d.size < 2 ^ 32

-- An address of one of the devices, or the one right behind it.
abbrev pub Reaches : List DeviceMapping → ℕ → Type 0
Reaches [] a = ⊥
Reaches (d ∷ ds) a = ((d.start_addr ≤ a) × (a ≤ d.start_addr + d.size)) ⊎ Reaches ds a

abbrev pub asked_addr : Hypervisor → ℕ
asked_addr h = from_guest_gpr h.cpu reg_a0

-- The configuration of the guest in execution is well-formed.
abbrev pub IsConfigured : VmConf → Type 0
IsConfigured conf = (conf.devices_mapping_sz ≡ length conf.devices) × All Fits conf.devices
