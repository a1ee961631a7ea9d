-- ===== src/Uart.antt =====
-- arch/mips/pic32mz/uart_driver.c: the console that the guests share.
--
-- `irq` and `uartstat` are the platform's UART_IRQ_TX and UARTSTAT, `poke` is what a store to a device
-- does, and `mmu` how the processor translates addresses. The hardware's queue takes `room` characters
-- before UARTSTAT reads full; of what is stored in UARTTXREG it sends the low byte.
pub mod Loops
pub mod Table
pub mod Served
pub mod Ended
pub mod Progress
pub mod Drain
pub mod Sends
pub mod Send
mod Tests
use prpl_hypervisor.Base.{
  ℕ, zero, suc, ◌+◌, ◌*◌, ◌/◌, ◌^◌, List, [], ◌∷◌, ◌++◌, Option, none, some, get_or, set, length,
  replicate, sub32, negative, add32, lt_int, ltb, ◌==◌, bit_and, bit_or, if◌then◌else◌,
}
use prpl_hypervisor.Machine.{
  Hypervisor, Cpu, blocked, running, put_vcpu, from_guest_gpr, to_guest_gpr, complement, reg_v0,
  reg_a0, reg_a1,
}
use prpl_hypervisor.Tlb.{tlb_create_entry, shl}
use prpl_hypervisor.Hypercall.{register_or_stop}
use prpl_hypervisor.Interrupts.{register_interrupt}
use prpl_hypervisor.Redirect.{ifsclr, iecset, iecclr, ipcclr, ipcset, off, bank, line, poke_cpu}

-- `struct transfer_info`; `vcpu` is an address, and NULL if no transfer is queued.
pub record TransferInfo : Type 0 where
  pub buf_addr : ℕ
  pub next_character : ℕ
  pub size : ℕ
  pub vcpu : ℕ

-- The static variables, and what the hardware was given to send.
pub record Uart : Type 0 where
  pub transfers : List TransferInfo
  pub active_transfer : ℕ
  pub sent : List ℕ

abbrev pub no_transfer : TransferInfo
no_transfer = record { buf_addr = 0; next_character = 0; size = 0; vcpu = 0 }

abbrev pub transfer : Uart → ℕ → TransferInfo
transfer u j = get_or u.transfers j no_transfer

-- The loops that store characters from `i` on: where they stop, and what they store.
unfoldable pub transmit : (ℕ → ℕ) → ℕ → ℕ → ℕ → ℕ × List ℕ
transmit mapped zero i size = (i, [])
transmit mapped (suc room) i size =
    let (next, chars) = transmit mapped room (i + 1) size in
    if ltb i size then (next, mapped i ∷ chars) else (i, [])

-- The search for the next transfer: its place from `j` on, if there is one.
unfoldable pub next_transfer : ℕ → List TransferInfo → Option ℕ
next_transfer j [] = none
next_transfer j (t ∷ ts) =
    let rest = next_transfer (suc j) ts in if t.vcpu == 0 then rest else some j

module _ (poke : (ℕ → ℕ) → ℕ → ℕ → ℕ → ℕ) (irq : ℕ) where
  -- `scheduler_transfer_interrupt`. The places of VCPUs that are not in the table are not written.
  unfoldable pub scheduler_transfer_interrupt : ℕ → ℕ → ℕ → Hypervisor × Uart → Hypervisor × Uart
  scheduler_transfer_interrupt addr next_character size (h, u) =
      let p = h.vcpu_executing in
      let v = h.vcpu p in
      let j = sub32 v.id 1 in
      let idle = lt_int u.active_transfer 0 in
      let t : TransferInfo = record {
        buf_addr = addr;
        next_character = next_character;
        size = size;
        vcpu = p;
      } in
      (
        record (put_vcpu h p (record v { state = blocked })) {
          cpu = if idle then poke_cpu poke h.cpu (iecset (bank irq)) (line irq) else h.cpu;
        },
        record u {
          transfers = set u.transfers j t;
          active_transfer = if idle then j else u.active_transfer;
        },
      )

  -- The next transfer begins, or without one the interrupt is disabled.
  unfoldable pub begin_next : Hypervisor × Uart → Option ℕ → Hypervisor × Uart
  begin_next (h, u) (some k) = (h, record u { active_transfer = k })
  begin_next (h, u) none = (
    record h { cpu = poke_cpu poke h.cpu (iecclr (bank irq)) (line irq) },
    record u { active_transfer = negative 1 },
  )

  -- The end of a transfer: its VCPU runs again, and the next transfer begins.
  unfoldable pub end_transfer : ℕ → Hypervisor × Uart → Hypervisor × Uart
  unfolding next_transfer begin_next
  end_transfer j (h, u) =
      let t = transfer u j in
      let h' = put_vcpu h t.vcpu (record (h.vcpu t.vcpu) { state = running }) in
      let ts = set u.transfers j (record t { vcpu = 0 }) in
      begin_next (h', record u { transfers = ts }) (next_transfer 0 ts)

  module _ (mmu : Cpu → ℕ → ℕ) where
    -- The bytes of a buffer that is mapped at the address.
    abbrev pub buffer : Cpu → ℕ → ℕ → ℕ
    buffer c mapped i = c.byte (mmu c (add32 mapped i))

    -- `transfer_tx_done`; without a transfer in the table it reads out of bounds or through NULL, which
    -- is no result.
    unfoldable pub transfer_tx_done : ℕ → Hypervisor × Uart → Option (Hypervisor × Uart)
    unfolding transmit end_transfer
    transfer_tx_done room (h, u) =
        let j = u.active_transfer in
        let t = transfer u j in
        let c0 = poke_cpu poke h.cpu (ifsclr (bank irq)) (line irq) in
        let (c, mapped) =
          tlb_create_entry c0 t.buf_addr (h.vm (h.vcpu t.vcpu).vm).base_addr t.size 0xf 1 in
        let (next, chars) = transmit (buffer c mapped) room t.next_character t.size in
        let h' = record h { cpu = c } in
        let u' = record u {
          transfers = set u.transfers j (record t { next_character = next });
          sent = u.sent ++ chars;
        } in
        if t.vcpu == 0
        then none
        else if ltb next t.size
        then some (h', u')
        else some (end_transfer j (h', u'))

    -- `send`
    unfoldable pub send : ℕ → Hypervisor × Uart → Hypervisor × Uart
    unfolding transmit scheduler_transfer_interrupt
    send room (h, u) =
        let str = from_guest_gpr h.cpu reg_a0 in
        let size = from_guest_gpr h.cpu reg_a1 in
        let vm = h.vm (h.vcpu h.vcpu_executing).vm in
        let (c, mapped) = tlb_create_entry h.cpu str vm.base_addr size 0xf 1 in
        let (i, chars) =
          transmit (buffer c mapped) (if lt_int u.active_transfer 0 then room else 0) 0 size in
        let s : Hypervisor × Uart = (record h { cpu = c }, record u { sent = u.sent ++ chars }) in
        let (h', u') = if ltb i size then scheduler_transfer_interrupt str i size s else s in
        (record h' { cpu = to_guest_gpr h'.cpu reg_v0 size }, u')

module _ (poke : (ℕ → ℕ) → ℕ → ℕ → ℕ → ℕ) (irq uartstat : ℕ) where
  -- The stores of `uart_driver_init` to the devices.
  unfoldable pub set_up : (ℕ → ℕ) → ℕ → ℕ → ℕ
  set_up d offset =
      let priority = shl 0x1f (8 * bit_and irq 3) in
      let d1 = poke d (off irq) offset in
      let d2 =
        poke d1 uartstat (bit_or (bit_and (d1 uartstat) (complement (shl 3 14))) (shl 1 14)) in
      let d3 = poke d2 (ipcclr (irq / 2 ^ 2)) priority in
      let d4 = poke d3 (ipcset (irq / 2 ^ 2)) priority in poke d4 (ifsclr (bank irq)) (line irq)

module _ {ℓ κ} {I : Type ℓ} {H : Type κ} (poke : (ℕ → ℕ) → ℕ → ℕ → ℕ → ℕ) (irq uartstat : ℕ) where
  -- `uart_driver_init`: the table of hypercalls, the vector of interrupts, the devices and the driver.
  unfoldable pub uart_driver_init :
      H
      → I
      → List (Option H)
      → List (Option I)
      → (ℕ → ℕ)
      → Uart
      → List (Option H) × List (Option I) × (ℕ → ℕ) × Uart
  unfolding set_up
  uart_driver_init sending done table vector device u =
      let (vector', offset) = register_interrupt vector done in
      register_or_stop table sending 18 (λ t. (t, vector, device, u))
        (λ t. if offset == 0 then (t, vector', device, u) else (
          t,
          vector',
          set_up poke irq uartstat device offset,
          record u { transfers = replicate (length u.transfers) no_transfer },
        ))
