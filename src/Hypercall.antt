-- ===== src/Hypercall.antt =====
-- sys/kernel/hypercall.c: the table of hypercalls. `H` is the type of the handlers that drivers
-- register, and `run` what a handler does to the hypervisor; an empty place of the table is a NULL.
pub mod Laws
mod Tests
use prpl_hypervisor.Base.{
  ℕ, ◌/◌, ◌-◌, ◌^◌, List, Option, none, some, get_or, set, replicate, bit_and, ltb, negative,
  lt_int, if◌then◌else◌,
}
use prpl_hypervisor.Machine.{Hypervisor, Cpu, mfc0, to_guest_gpr, reg_v0}

-- HCALL_TABLE_SIZE
abbrev pub table_size : ℕ
table_size = 30

abbrev pub code_invalid : ℕ
code_invalid = negative 1

abbrev pub code_used : ℕ
code_used = negative 2

abbrev pub not_implemented : ℕ
not_implemented = negative 3

-- `getHypercallCode` of arch/mips/common/hal.c; HYPCODE is 0x3ff << 11 of CP0 8, select 1.
unfoldable pub get_hypercall_code : Cpu → ℕ
get_hypercall_code c = bit_and (mfc0 c 8 1) 0x1ff800 / 2 ^ 11

module _ {ℓ} {H : Type ℓ} where
  abbrev pub entry : List (Option H) → ℕ → Option H
  entry table code = get_or table code none

  -- `register_hypercall`: the table and the result.
  unfoldable pub register_hypercall : List (Option H) → H → ℕ → List (Option H) × ℕ
  register_hypercall table hyper code =
      if ltb (table_size - 1) code then (table, code_invalid) else elim (entry table code) [
        | some other ↦ (table, code_used)
        | none ↦ (set table code (some hyper), code)
      ]

  -- The test of each registration by a driver, with what the driver does on an error and otherwise.
  unfoldable pub register_or_stop {κ} :
      {A : Type κ} → List (Option H) → H → ℕ → (List (Option H) → A) → (List (Option H) → A) → A
  register_or_stop table hyper code stop next =
      let (table', status) = register_hypercall table hyper code in
      if lt_int status 0 then stop table' else next table'

  -- `hypercall_execution`
  unfoldable pub hypercall_execution :
      List (Option H) → (H → Hypervisor → Option Hypervisor) → Hypervisor → Option Hypervisor
  unfolding get_hypercall_code
  hypercall_execution table run h =
      let code = get_hypercall_code h.cpu in
      let refused = some (record h { cpu = to_guest_gpr h.cpu reg_v0 not_implemented }) in
      if ltb (table_size - 1) code
      then refused
      else elim (entry table code) [ none ↦ refused | some hyper ↦ run hyper h ]
