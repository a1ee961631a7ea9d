-- ===== src/Uart/Served.antt =====
-- One call of the interrupt handler `transfer_tx_done`, and what it leaves of a transfer that goes on.
use prpl_hypervisor.Base.{
  ℕ, ◌+◌, ◌-◌, ◌<◌, ◌^◌, ◌≡◌, ◌≢◌, refl, sym, ap, ◌∙◌, subst, ◌⊎◌, inl, inr, List, ◌++◌, some,
  arith, length, length-set, get_or-set_self, set, min, ==-ne, ltb, if◌then◌else◌,
}
use prpl_hypervisor.Machine.{Hypervisor, Cpu, running}
use prpl_hypervisor.Tlb.{tlb_create_entry}
use prpl_hypervisor.Redirect.{ifsclr, bank, line, poke_cpu}
use prpl_hypervisor.Uart.{
  Uart, TransferInfo, no_transfer, transfer, buffer, end_transfer, transfer_tx_done,
}
use prpl_hypervisor.Uart.Loops.{
  IsUart, IsQueued, rest_of, remaining, remaining-set, characters, transmit_lem,
}
use prpl_hypervisor.Uart.Table.{each-set, same_owner}

module _ (poke : (ℕ → ℕ) → ℕ → ℕ → ℕ → ℕ) (irq : ℕ) (mmu : Cpu → ℕ → ℕ) where
  -- The mapping of the active transfer's buffer, and what is left of it.
  abbrev pub mapping : Hypervisor → Uart → Cpu × ℕ
  mapping h u =
      let t = transfer u u.active_transfer in
      tlb_create_entry (poke_cpu poke h.cpu (ifsclr (bank irq)) (line irq)) t.buf_addr
        (h.vm (h.vcpu t.vcpu).vm).base_addr t.size 0xf 1

  abbrev pub count_of : Uart → ℕ → ℕ
  count_of u room = let t = transfer u u.active_transfer in min room (t.size - t.next_character)

  abbrev pub chars_of : Hypervisor → Uart → ℕ → List ℕ
  chars_of h u room =
      characters (buffer poke irq mmu (mapping h u).0 (mapping h u).1)
        (transfer u u.active_transfer).next_character (count_of u room)

  unfoldable pub advanced : Uart → ℕ → TransferInfo
  advanced u room =
      let t = transfer u u.active_transfer in
      record t { next_character = t.next_character + count_of u room }

  unfoldable pub served : Hypervisor → Uart → ℕ → Hypervisor × Uart
  served h u room = (
    record h { cpu = (mapping h u).0 },
    record u {
      transfers = set u.transfers u.active_transfer (advanced u room);
      sent = u.sent ++ chars_of h u room;
    },
  )

  pub transfer_tx_done-served :
      (h : Hypervisor) (u : Uart) (room : ℕ)
      → (transfer u u.active_transfer).vcpu ≢ 0
      → transfer_tx_done poke irq mmu room (h, u) ≡ (
          if ltb (advanced u room).next_character (transfer u u.active_transfer).size
          then some (served h u room)
          else some (end_transfer poke irq u.active_transfer (served h u room)))
  unfolding transfer_tx_done served advanced
  transfer_tx_done-served h u room n =
      rw
        (
          ==-ne (transfer u u.active_transfer).vcpu 0 n,
          transmit_lem (buffer poke irq mmu (mapping h u).0 (mapping h u).1) room
              (transfer u u.active_transfer).next_character (transfer u u.active_transfer).size,
        )
        refl

  -- What the handler leaves: characters are sent, from where the transfer was, and the VCPU of a transfer
  -- that is through runs again.
  pub record Served (h : Hypervisor) (u : Uart) (room : ℕ) (h' : Hypervisor) (u' : Uart)
      : Type 0 where
    pub valid : IsUart h'.vcpu u'
    pub sent : u'.sent ≡ u.sent ++ chars_of h u room
    pub progress : remaining u'.transfers + count_of u room ≡ remaining u.transfers
    pub over :
        let t = transfer u u.active_transfer in
        (t.next_character + room < t.size) ⊎ ((h'.vcpu t.vcpu).state ≡ running)
    pub awakes :
        (j : ℕ)
        → ((transfer u' j).vcpu ≡ (transfer u j).vcpu)
          ⊎ ((h'.vcpu (transfer u j).vcpu).state ≡ running)
    pub runs : (p : ℕ) → (h.vcpu p).state ≡ running → (h'.vcpu p).state ≡ running

  pub rest_of_queued : (t : TransferInfo) → t.vcpu ≢ 0 → rest_of t ≡ t.size - t.next_character
  rest_of_queued t n = ground (arith, n)

  pub served-Served :
      (h : Hypervisor) (u : Uart) (room : ℕ)
      → IsUart h.vcpu u
      → u.active_transfer < length u.transfers
      → IsQueued h.vcpu u.active_transfer (transfer u u.active_transfer)
      → (advanced u room).next_character < (transfer u u.active_transfer).size
      → Served h u room (served h u room).0 (served h u room).1
  unfolding served advanced
  served-Served h u room w l q more = record {
    valid = record {
      few =
          subst (λ n. n < 2 ^ 31) (sym (length-set u.transfers u.active_transfer (advanced u room)))
            w.few;
      each =
          each-set h.vcpu h.vcpu u.transfers u.active_transfer (advanced u room) w.each l
            (inr queued) (λ k s n o. o);
      active = inr (
        subst (λ n. u.active_transfer < n)
            (sym (length-set u.transfers u.active_transfer (advanced u room))) l,
        λ z. q.non_null (
            ap (λ t. t.vcpu)
              (sym (get_or-set_self u.transfers u.active_transfer (advanced u room) no_transfer l))
            ∙ z),
      );
    };
    sent = refl;
    progress = omega (
      arith,
      remaining-set u.transfers u.active_transfer (advanced u room) l,
      rest_of_queued (transfer u u.active_transfer) q.non_null,
      rest_of_queued (advanced u room) q.non_null,
    );
    over = inl (omega arith);
    awakes = λ j. inl (same_owner u.transfers u.active_transfer (advanced u room) l refl j);
    runs = λ p r. r;
  }
    where
      queued : IsQueued h.vcpu u.active_transfer (advanced u room)
      queued = record {
        non_null = q.non_null;
        more = more;
        fits = q.fits;
        owner = q.owner;
        waits = q.waits;
      }
