-- ===== src/Hypercall/Laws.antt =====
-- What registration and execution of hypercalls promise each other.
use native.Mathlib.Decide.{dec_lt}
use prpl_hypervisor.Base.{
  sym, Option-cases, ◌⊎◌, inl, inr, ℕ, ◌≤◌, ◌<◌, ◌≡◌, ◌≢◌, List, Option, none, some, arith, length,
  length-set, set, get_or-set_self, get_or-set_ne,
}
use prpl_hypervisor.Machine.{Hypervisor, to_guest_gpr, reg_v0}
use prpl_hypervisor.Hypercall.{
  register_hypercall, register_or_stop, hypercall_execution, entry, table_size, code_invalid,
  code_used, get_hypercall_code, not_implemented,
}

module _ {ℓ} {H : Type ℓ} where
  -- What a registration of `hyper` at `code` does to the table, `other` being another code.
  abbrev pub Registered : List (Option H) → H → ℕ → ℕ → List (Option H) × ℕ → Type ℓ
  Registered table hyper code other (table', status) =
      (length table' ≡ table_size)
      × (entry table' other ≡ entry table other)
      × (((table_size ≤ code) × (status ≡ code_invalid) × (table' ≡ table))
          ⊎ ((code < table_size)
              × (entry table code ≢ none)
              × (status ≡ code_used)
              × (table' ≡ table))
          ⊎ ((code < table_size)
              × (entry table code ≡ none)
              × (status ≡ code)
              × (entry table' code ≡ some hyper)))

  -- A registration in a table of thirty places keeps their number and any other place, and has one
  -- of three outcomes: a code of thirty or more is invalid and nothing changes; at a code in use the
  -- handler stays; at a free code the handler is entered and the code is the result.
  pub register_hypercall_lem :
      (table : List (Option H)) (hyper : H) (code other : ℕ)
      → length table ≡ table_size
      → other ≢ code
      → Registered table hyper code other (register_hypercall table hyper code)
  unfolding register_hypercall
  register_hypercall_lem table hyper code other l n = elim (dec_lt code table_size) [
    | yes lt ↦ elim (Option-cases (entry table code)) [
      | inl free ↦ ground (
        arith,
        length-set table code (some hyper),
        get_or-set_self table code (some hyper) none,
        get_or-set_ne table {i = code} {j = other} (some hyper) none (λ e. n (sym e)),
      )
      | inr (old, used) ↦ ground arith
    ]
    | no ge ↦ ground arith
  ]

  -- A driver's registration at a free code goes on with the handler entered.
  pub register_or_stop_free {κ} :
      {A : Type κ} (table : List (Option H)) (hyper : H) (code : ℕ)
      (stop next : List (Option H) → A)
      → code < table_size
      → entry table code ≡ none
      → register_or_stop table hyper code stop next ≡ next (set table code (some hyper))
  unfolding register_or_stop register_hypercall
  register_or_stop_free table hyper code stop next lt free = ground arith

  -- A guest's call of a code below thirty that was free when `hyper` was registered runs `hyper`.
  pub hypercall_execution-register_hypercall :
      (table : List (Option H)) (hyper : H) (code : ℕ) (run : H → Hypervisor → Option Hypervisor)
      (h : Hypervisor)
      → length table ≡ table_size
      → code < table_size
      → entry table code ≡ none
      → get_hypercall_code h.cpu ≡ code
      → hypercall_execution (register_hypercall table hyper code).0 run h ≡ run hyper h
  unfolding hypercall_execution register_hypercall
  hypercall_execution-register_hypercall table hyper code run h l lt free e =
      ground (arith, get_or-set_self table code (some hyper) none)

  -- A call of a code that is not below thirty, or that no handler was registered for, runs no handler:
  -- it writes HCALL_NOT_IMPLEMENTED to the guest's v0 and changes nothing else.
  pub hypercall_execution_refused :
      (table : List (Option H)) (run : H → Hypervisor → Option Hypervisor) (h : Hypervisor)
      → (table_size ≤ get_hypercall_code h.cpu) ⊎ (entry table (get_hypercall_code h.cpu) ≡ none)
      → hypercall_execution table run h
        ≡ some (record h { cpu = to_guest_gpr h.cpu reg_v0 not_implemented })
  unfolding hypercall_execution
  hypercall_execution_refused table run h (inl ge) = ground arith
  hypercall_execution_refused table run h (inr free) = ground arith
