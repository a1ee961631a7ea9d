-- ===== src/Uart/Tests.antt =====
-- A table of three places on the sample machine.
use prpl_hypervisor.Base.{
  ℕ, zero, suc, ◌≡◌, ◌<◌, ◌^◌, ◌⊎◌, refl, inl, inr, arith, [], ◌∷◌, some, negative, ◌==◌,
  if◌then◌else◌,
}
use prpl_hypervisor.Machine.{Hypervisor, Cpu, store, blocked, from_guest_gpr, reg_a1}
use prpl_hypervisor.Machine.Sample.{sample, sample_vcpu}
use prpl_hypervisor.Uart.{Uart, TransferInfo, no_transfer, transfer, send}
use prpl_hypervisor.Uart.Loops.{IsUart, IsQueued}
use prpl_hypervisor.Uart.Sends.{CanSend, Sends}
use prpl_hypervisor.Uart.Send.{send_lem}
use prpl_hypervisor.Uart.Drain.{drain, Drained, drain_lem}

abbrev idle : Uart
idle = record {
  transfers = no_transfer ∷ no_transfer ∷ no_transfer ∷ [];
  active_transfer = negative 1;
  sent = [];
}

abbrev direct : Cpu → ℕ → ℕ
direct c a = a

-- The guest asks for 17 characters, of which 8 fit.
abbrev asking : Hypervisor
asking = record sample { cpu = record sample.cpu { gpr = λ set reg. 17 } }

idle-empty : (j : ℕ) → (transfer idle j).vcpu ≡ 0
idle-empty zero = refl
idle-empty (suc zero) = refl
idle-empty (suc (suc zero)) = refl
idle-empty (suc (suc (suc j))) = refl

idle-IsUart : IsUart asking.vcpu idle
idle-IsUart = record {
  few = omega arith;
  each = λ j. inl (idle-empty j);
  active = inl (refl, idle-empty);
}

asking-CanSend : CanSend asking idle 0
asking-CanSend = record {
  executes = λ e. omega arith;
  id = refl;
  inside = omega arith;
  free = refl;
}

asking_word : from_guest_gpr asking.cpu reg_a1 < 2 ^ 32
unfolding from_guest_gpr
asking_word = omega arith

send_lem_example :
    let (h', u') = send store 147 direct 8 (asking, idle) in
    Sends store 147 direct asking idle 0 8 h' u'
send_lem_example = send_lem store 147 direct asking idle 0 8 idle-IsUart asking-CanSend asking_word

-- The second VCPU waits for the last two of its three characters.
abbrev waiting : TransferInfo
waiting = record { buf_addr = 0x80001000; next_character = 1; size = 3; vcpu = 200 }

abbrev busy : Uart
busy = record {
  transfers = no_transfer ∷ waiting ∷ no_transfer ∷ [];
  active_transfer = 1;
  sent = 65 ∷ [];
}

abbrev machine : Hypervisor
machine = record sample {
  vcpu = λ p.
      if p == 200
      then record (sample_vcpu 200 2 20 0) { state = blocked }
      else sample_vcpu 100 1 30 0;
}

busy_each : (j : ℕ) → ((transfer busy j).vcpu ≡ 0) ⊎ IsQueued machine.vcpu j (transfer busy j)
busy_each zero = inl refl
busy_each (suc zero) = inr (record {
  non_null = λ e. omega arith;
  more = omega arith;
  fits = omega arith;
  owner = refl;
  waits = refl;
})
busy_each (suc (suc zero)) = inl refl
busy_each (suc (suc (suc j))) = inl refl

busy-IsUart : IsUart machine.vcpu busy
busy-IsUart = record {
  few = omega arith;
  each = busy_each;
  active = inr (omega arith, λ e. omega arith);
}

drain_lem_example :
    (h' : Hypervisor) × (u' : Uart) × (drain store 147 direct (1 ∷ 1 ∷ []) (machine, busy)
      ≡ some (h', u'))
    × Drained store 147 direct machine busy h' u'
drain_lem_example =
    drain_lem store 147 direct (1 ∷ 1 ∷ []) machine busy busy-IsUart
      (omega arith, (omega arith, tt)) (omega arith)
