-- ===== src/Uart/Ended.antt =====
-- The end of a transfer.
use prpl_hypervisor.Base.{
  ℕ, ◌+◌, ◌≤◌, ◌<◌, ◌^◌, ◌≡◌, ◌≢◌, refl, sym, ap, subst, ◌⊎◌, inl, inr, List, ◌++◌, Option, none,
  some, arith, length, length-set, get_or, get_or-set_self, get_or-set_ne, set, set-set,
}
use native.Mathlib.Decide.{ℕ_discrete}
use prpl_hypervisor.Machine.{Hypervisor, Cpu, running, put_vcpu}
use prpl_hypervisor.Uart.{
  Uart, TransferInfo, no_transfer, transfer, next_transfer, begin_next, end_transfer,
}
use prpl_hypervisor.Uart.Loops.{IsUart, IsQueued, remaining, remaining-set, Finds}
use prpl_hypervisor.Uart.Table.{Fits, each-set, others_wait}
use prpl_hypervisor.Uart.Served.{
  mapping, count_of, chars_of, advanced, served, Served, rest_of_queued,
}

module _ (poke : (ℕ → ℕ) → ℕ → ℕ → ℕ → ℕ) (irq : ℕ) (mmu : Cpu → ℕ → ℕ) where
  pub ended : Uart → ℕ → List TransferInfo
  ended u room =
      set u.transfers u.active_transfer (record (advanced poke irq mmu u room) { vcpu = 0 })

  awake : Hypervisor → Uart → Hypervisor
  awake h u =
      let p = (transfer u u.active_transfer).vcpu in
      put_vcpu (record h { cpu = (mapping poke irq mmu h u).0 }) p
        (record (h.vcpu p) { state = running })

  -- The end of a transfer, by what the search for the next one finds.
  pub ended_with : Hypervisor → Uart → ℕ → Option ℕ → Hypervisor × Uart
  ended_with h u room o =
      begin_next poke irq
        (
          awake h u,
          record u { transfers = ended u room; sent = u.sent ++ chars_of poke irq mmu h u room },
        )
        o

  pub end_transfer-ended_with :
      (h : Hypervisor) (u : Uart) (room : ℕ)
      → u.active_transfer < length u.transfers
      → end_transfer poke irq u.active_transfer (served poke irq mmu h u room)
        ≡ ended_with h u room (next_transfer 0 (ended u room))
  unfolding end_transfer served ended ended_with awake advanced
  end_transfer-ended_with h u room l =
      rw
        (
          get_or-set_self u.transfers u.active_transfer (advanced poke irq mmu u room) no_transfer
              l,
          set-set u.transfers u.active_transfer (advanced poke irq mmu u room)
              (record (advanced poke irq mmu u room) { vcpu = 0 }),
        )
        refl

  awake_each :
      (h : Hypervisor) (u : Uart) (room : ℕ)
      → IsUart h.vcpu u
      → u.active_transfer < length u.transfers
      → IsQueued h.vcpu u.active_transfer (transfer u u.active_transfer)
      → (k : ℕ) → Fits (awake h u).vcpu k (get_or (ended u room) k no_transfer)
  unfolding awake ended
  awake_each h u room w l q =
      each-set h.vcpu (awake h u).vcpu u.transfers u.active_transfer
        (record (advanced poke irq mmu u room) { vcpu = 0 }) w.each l (inl refl)
        (λ k s n o.
          others_wait h u.active_transfer (transfer u u.active_transfer).vcpu
            (record (h.vcpu (transfer u u.active_transfer).vcpu) { state = running }) k s q.owner n
            o)

  ended_progress :
      (u : Uart) (room : ℕ)
      → u.active_transfer < length u.transfers
      → (transfer u u.active_transfer).vcpu ≢ 0
      → (transfer u u.active_transfer).size ≤ (advanced poke irq mmu u room).next_character
      → remaining (ended u room) + count_of poke irq mmu u room ≡ remaining u.transfers
  unfolding ended advanced
  ended_progress u room l n through = omega (
    arith,
    remaining-set u.transfers u.active_transfer (record (advanced poke irq mmu u room) { vcpu = 0 })
        l,
    rest_of_queued poke irq mmu (transfer u u.active_transfer) n,
  )

  length-ended : (u : Uart) (room : ℕ) → length (ended u room) ≡ length u.transfers
  unfolding ended
  length-ended u room =
      length-set u.transfers u.active_transfer (record (advanced poke irq mmu u room) { vcpu = 0 })

  awake_runs :
      (h : Hypervisor) (u : Uart)
      → ((awake h u).vcpu (transfer u u.active_transfer).vcpu).state ≡ running
  unfolding awake
  awake_runs h u = ground arith

  awake_keeps :
      (h : Hypervisor) (u : Uart) (p : ℕ)
      → (h.vcpu p).state ≡ running
      → ((awake h u).vcpu p).state ≡ running
  unfolding awake
  awake_keeps h u p r = ground (arith, r)

  awake_awakes :
      (h : Hypervisor) (u : Uart) (room j : ℕ)
      → ((get_or (ended u room) j no_transfer).vcpu ≡ (transfer u j).vcpu)
        ⊎ (((awake h u).vcpu (transfer u j).vcpu).state ≡ running)
  unfolding ended
  awake_awakes h u room j = elim (ℕ_discrete u.active_transfer j) [
    | yes e ↦
        inr (subst (λ i. ((awake h u).vcpu (transfer u i).vcpu).state ≡ running) e (awake_runs h u))
    | no n ↦ inl (
        ap (λ t. t.vcpu)
          (get_or-set_ne u.transfers (record (advanced poke irq mmu u room) { vcpu = 0 })
            no_transfer n))
  ]

  ended-IsUart :
      (h : Hypervisor) (u : Uart) (room : ℕ) (o : Option ℕ)
      → IsUart h.vcpu u
      → u.active_transfer < length u.transfers
      → IsQueued h.vcpu u.active_transfer (transfer u u.active_transfer)
      → Finds 0 (ended u room) o
      → IsUart (ended_with h u room o).0.vcpu (ended_with h u room o).1
  unfolding ended_with begin_next
  ended-IsUart h u room none w l q f = record {
    few = subst (λ n. n < 2 ^ 31) (sym (length-ended u room)) w.few;
    each = awake_each h u room w l q;
    active = inl (refl, f);
  }
  ended-IsUart h u room (some k) w l q f = record {
    few = subst (λ n. n < 2 ^ 31) (sym (length-ended u room)) w.few;
    each = awake_each h u room w l q;
    active =
        let same : k ≡ f.0 = omega (arith, f.1) in
        inr (
          omega (arith, f.1, f.2),
          subst (λ i. (get_or (ended u room) i no_transfer).vcpu ≢ 0) (sym same) f.3,
        );
  }

  pub ended-Served :
      (h : Hypervisor) (u : Uart) (room : ℕ) (o : Option ℕ)
      → IsUart h.vcpu u
      → u.active_transfer < length u.transfers
      → IsQueued h.vcpu u.active_transfer (transfer u u.active_transfer)
      → (transfer u u.active_transfer).size ≤ (advanced poke irq mmu u room).next_character
      → Finds 0 (ended u room) o
      → Served poke irq mmu h u room (ended_with h u room o).0 (ended_with h u room o).1
  unfolding ended_with begin_next
  ended-Served h u room none w l q through f = record {
    valid = ended-IsUart h u room none w l q f;
    sent = refl;
    progress = ended_progress u room l q.non_null through;
    over = inr (awake_runs h u);
    awakes = λ j. awake_awakes h u room j;
    runs = λ p r. awake_keeps h u p r;
  }
  ended-Served h u room (some k) w l q through f = record {
    valid = ended-IsUart h u room (some k) w l q f;
    sent = refl;
    progress = ended_progress u room l q.non_null through;
    over = inr (awake_runs h u);
    awakes = λ j. awake_awakes h u room j;
    runs = λ p r. awake_keeps h u p r;
  }
