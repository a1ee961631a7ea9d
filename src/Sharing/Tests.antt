-- ===== src/Sharing/Tests.antt =====
-- One registered VM, for which the frame in buffer 3 waits.
use prpl_hypervisor.Sharing.{
  get_vm_destination, octets, first_index, maccmp, same_octets, is_broadcast, sort_frame,
}
use prpl_hypervisor.Sharing.Reading.{sort_frame_lem}
use prpl_hypervisor.Base.{
  [], ◌+◌, ◌-◌, ◌%◌, false, ℕ, ◌+◌, ◌<◌, ◌≡◌, ◌≢◌, ◌⊎◌, refl, arith, ◌∷◌, replicate, some,
  if◌then◌else◌, ◌==◌, In, negative,
}
use prpl_hypervisor.Machine.{Cpu}
use prpl_hypervisor.Sharing.Output.{Sender}
use prpl_hypervisor.Machine.Sample.{sample}
use prpl_hypervisor.Sharing.{Net, VmCtrl, get_free_buffer}
use prpl_hypervisor.Sharing.Rings.{pending, IsRing}
use prpl_hypervisor.Sharing.Counts.{refs}
use prpl_hypervisor.Sharing.Kept.{IsShared, get_free_buffer_lem}

abbrev own_ring : VmCtrl
own_ring = record {
  vm_id = (sample.vm (sample.vcpu sample.vcpu_executing).vm).id;
  mac = λ i. i;
  input = 1;
  output = 0;
  frame_list = 3 ∷ replicate 9 10;
}

abbrev net : Net
net = record {
  hv = sample;
  port = record {
    is_up = 1;
    rx_desc = λ i. record { hdr = 0x80; paddr = 0; status = 0 };
    receive_index = 0;
    returned = 0;
    memory = λ a. a;
  };
  macaddr = λ i. i;
  buf = λ k. record { used = if 3 == k then 1 else 0; frame_size = 64 };
  vms = λ i. own_ring;
  vm_counter = 1;
  number_used_buffers = 1;
}

own_ring-IsRing : IsRing own_ring
own_ring-IsRing = record {
  places = refl;
  input_in = omega arith;
  output_in = omega arith;
  buffers = (omega arith, tt);
}

net-IsShared : IsShared net
net-IsShared = record {
  few = omega arith;
  rings = λ i l. own_ring-IsRing;
  counted = λ k l. omega arith;
}

abbrev same : Cpu → ℕ → ℕ
same c a = a

get_free_buffer_lem_example :
    ((get_free_buffer net < 10)
      × ((i : ℕ) → i < 1 → ¬ In (get_free_buffer net) (pending (net.vms i))))
    ⊎ ((get_free_buffer net ≡ negative 1) × ((k : ℕ) → k < 10 → refs 1 net.vms k ≢ 0))
get_free_buffer_lem_example = get_free_buffer_lem net net-IsShared

-- The guest asks to send 2000 bytes, more than the buffer has.
abbrev sender : Sender
sender = record {
  hv = record sample {
    cpu = record sample.cpu { gpr = λ set reg. if reg == 5 then 2000 else 0x1000 };
  };
  memory = λ a. 0;
  desc = record { hdr = 0; paddr = 0; status = 0 };
  ethtxst = 0;
  requests = 0;
}

-- Two VMs without frames, the second of which has the address 0, 1, 2, 3, 4, 5.
abbrev quiet_ring : ℕ → VmCtrl
quiet_ring i = record own_ring { mac = λ t. t + (1 - i); input = 0 }

quiet_ring-IsRing : (i : ℕ) → IsRing (quiet_ring i)
quiet_ring-IsRing i = record {
  places = refl;
  input_in = omega arith;
  output_in = omega arith;
  buffers = tt;
}

abbrev quiet : Net
quiet = record net {
  port = record net.port { memory = λ a. a % 8 };
  buf = λ k. record { used = 0; frame_size = 0 };
  vms = quiet_ring;
  vm_counter = 2;
  number_used_buffers = 0;
}

quiet-IsShared : IsShared quiet
quiet-IsShared = record {
  few = omega arith;
  rings = λ i l. quiet_ring-IsRing i;
  counted = λ k l. omega arith;
}

quiet_known : get_vm_destination quiet (octets same 0x8000 quiet 0) ≡ 1
unfolding get_vm_destination maccmp same_octets first_index
quiet_known = refl

not_own : maccmp (octets same 0x8000 quiet 0) (quiet.vms 0).mac ≡ 0
unfolding maccmp same_octets
not_own = refl

not_for_all : is_broadcast (octets same 0x8000 quiet 0) ≡ 0
unfolding is_broadcast maccmp same_octets
not_for_all = refl

sort_frame_lem_example :
    (m : Net) × (sort_frame same 0x8000 quiet 0 0x1000 0 64 ≡ some (m, false))
    × (pending (m.vms (get_vm_destination quiet (octets same 0x8000 quiet 0))) ≡ 0 ∷ [])
    × ((a : ℕ) → a ≢ get_vm_destination quiet (octets same 0x8000 quiet 0) → m.vms a ≡ quiet_ring a)
    × ((m.buf 0).frame_size ≡ 64)
    × IsShared m
sort_frame_lem_example =
    sort_frame_lem same 0x8000 quiet 0 0x1000 0 64 quiet-IsShared (λ i l. omega arith) (omega arith)
      not_own not_for_all (omega (arith, quiet_known))
