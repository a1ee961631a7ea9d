-- ===== src/Ethernet/Tests.antt =====
-- A frame of 200 bytes in two descriptors.
use prpl_hypervisor.Base.{
  ℕ, zero, suc, ◌+◌, ◌*◌, ◌≤◌, ◌<◌, ◌≡◌, inl, refl, arith, some, if◌then◌else◌, ◌==◌, true, false,
}
use prpl_hypervisor.Ethernet.{
  Port, desc_eown, desc_eop, desc_bytecnt, desc_framesz, mach_phys_to_virt, en_ll_input,
}
use prpl_hypervisor.Ethernet.Pages.{page, Clear, IsCopied}
use prpl_hypervisor.Ethernet.Return.{IsReturned}
use prpl_hypervisor.Ethernet.Input.{IsWaiting, en_ll_input_lem}

abbrev port : Port
port = record {
  is_up = 1;
  rx_desc = λ i.
      if i == 0
      then record { hdr = 0x800000; paddr = 0x1000; status = 200 }
      else record { hdr = 0x40480000; paddr = 0x1080; status = 0 };
  receive_index = 0;
  returned = 0;
  memory = λ a. a;
}

owned : (i : ℕ) → i ≤ 1 → desc_eown (page port.rx_desc 0 i) ≡ false
unfolding desc_eown
owned zero h = refl
owned (suc zero) h = refl
owned (suc (suc i)) h = absurd (omega arith)

full : (i : ℕ) → i < 1 → desc_bytecnt (page port.rx_desc 0 i) ≡ 128
unfolding desc_bytecnt
full zero h = refl
full (suc i) h = absurd (omega arith)

inner : (i : ℕ) → i < 1 → desc_eop (page port.rx_desc 0 i) ≡ false
unfolding desc_eop
inner zero h = refl
inner (suc i) h = absurd (omega arith)

last :
    (desc_eop (page port.rx_desc 0 1) ≡ true)
    × (desc_bytecnt (page port.rx_desc 0 1) + 128 * 1 ≡ 200)
unfolding desc_eop desc_bytecnt
last = (refl, refl)

clear : Clear port.rx_desc 0 1 200 0x100
unfolding mach_phys_to_virt
clear zero h = inl (omega arith)
clear (suc zero) h = inl (omega arith)
clear (suc (suc i)) h = absurd (omega arith)

announced : desc_framesz (port.rx_desc 0) ≡ 200
unfolding desc_framesz
announced = refl

port-IsWaiting : IsWaiting port 1 200 0x100
port-IsWaiting = record {
  up = λ e. omega arith;
  index = omega arith;
  holds = record {
    owned = owned;
    full = full;
    inner = inner;
    ends = last.0;
    last = last.1;
    fits = (omega arith, omega arith, omega arith);
  };
  announced = announced;
  clear = clear;
}

en_ll_input_lem_example :
    (p' : Port) × (m : ℕ → ℕ) × (en_ll_input 2 0x100 port ≡ some (p', 200))
    × IsReturned (record port { memory = m }) 1 p'
    × IsCopied port.rx_desc 0 0x100 port.memory m 200
en_ll_input_lem_example = en_ll_input_lem 2 0x100 1 200 port port-IsWaiting (omega arith)
