-- ===== src/Sharing.antt =====
-- drivers/pic32mz-ethernet-shared.c: how frames are shared out among the VMs. A frame that the guest in
-- execution reads from the controller, but that is for others, waits in one of ten buffers, which
-- count the VMs that have still to read it.
--
-- `frame_list` holds the numbers of the buffers to which its pointers point; NULL is no_buffer. An access
-- outside the arrays has no result. `mmu` is the translation of addresses by the hardware, and `b_buf`
-- the address of the buffers. The memory of the hypervisor and that of the guests are apart.
mod Rings
mod Counts
pub mod Kept
mod Rounds
mod Reading
pub mod Oldest
pub mod Output
mod Tests
use prpl_hypervisor.Base.{
  ℕ, zero, suc, ◌+◌, ◌-◌, ◌*◌, ◌/◌, ◌%◌, ◌^◌, Bool, true, false, ◌&&◌, Option, none, some, List, [],
  ◌∷◌, get_or, set, add32, sub32, negative, ltb, ◌==◌, if◌then◌else◌,
}
use prpl_hypervisor.Machine.{Hypervisor, Cpu, store, from_guest_gpr, to_guest_gpr, reg_a0, reg_v0}
use prpl_hypervisor.Tlb.{tlb_create_entry}
use prpl_hypervisor.InterVm.{reply, read_bytes, write_bytes}
use prpl_hypervisor.Ethernet.{Port, en_ll_input}

-- NUMBER_OF_VM, NUMBER_OF_FRAMES and MTU
abbrev pub number_of_vm : ℕ
number_of_vm = 2

abbrev pub number_of_frames : ℕ
number_of_frames = 10

abbrev pub mtu : ℕ
mtu = 1536

abbrev pub no_buffer : ℕ
no_buffer = 10

-- `struct bounded_buffer`, whose frame is in the memory of the port
pub record Bounded : Type 0 where
  pub used : ℕ
  pub frame_size : ℕ

-- `struct vm_ctrl_buffer`
pub record VmCtrl : Type 0 where
  pub vm_id : ℕ
  pub mac : ℕ → ℕ
  pub input : ℕ
  pub output : ℕ
  pub frame_list : List ℕ

-- The hypervisor, the controller, and the static variables of the driver.
pub record Net : Type 0 where
  pub hv : Hypervisor
  pub port : Port
  pub macaddr : ℕ → ℕ
  pub buf : ℕ → Bounded
  pub vms : ℕ → VmCtrl
  pub vm_counter : ℕ
  pub number_used_buffers : ℕ

-- The first of `left` numbers from `i` on that passes the test, or -1.
unfoldable pub first_index : (ℕ → Bool) → ℕ → ℕ → ℕ
first_index test zero i = negative 1
first_index test (suc left) i =
    let rest = first_index test left (i + 1) in if test i then i else rest

unfoldable pub get_vm_buffer_pos : Net → ℕ → ℕ
unfolding first_index
get_vm_buffer_pos n id = first_index (λ i. (n.vms i).vm_id == id) n.vm_counter 0

unfoldable pub get_free_buffer : Net → ℕ
unfolding first_index
get_free_buffer n = first_index (λ i. (n.buf i).used == 0) number_of_frames 0

-- `maccmp`, and its loop
unfoldable pub same_octets : ℕ → ℕ → (ℕ → ℕ) → (ℕ → ℕ) → ℕ
same_octets zero i mac1 mac2 = 1
same_octets (suc left) i mac1 mac2 =
    let rest = same_octets left (i + 1) mac1 mac2 in if mac1 i == mac2 i then rest else 0

unfoldable pub maccmp : (ℕ → ℕ) → (ℕ → ℕ) → ℕ
unfolding same_octets
maccmp mac1 mac2 = same_octets 6 0 mac1 mac2

unfoldable pub is_broadcast : (ℕ → ℕ) → ℕ
unfolding maccmp
is_broadcast f = if maccmp f (λ i. 0xff) == 0 then 0 else 1

unfoldable pub get_vm_destination : Net → (ℕ → ℕ) → ℕ
unfolding first_index maccmp
get_vm_destination n f =
    first_index (λ i. if maccmp (n.vms i).mac f == 0 then false else true) n.vm_counter 0

-- `size` bytes of the memory of the hypervisor.
abbrev pub bytes_at : (ℕ → ℕ) → ℕ → ℕ → List ℕ
bytes_at m a zero = []
bytes_at m a (suc size) = m a ∷ bytes_at m (a + 1) size

-- A buffer is put at the end of a VM's ring, and counts that VM.
unfoldable pub push : Net → ℕ → ℕ → Net
push n i k =
    let v = n.vms i in
    record n {
      vms = store n.vms i (record v {
        frame_list = set v.frame_list v.input k;
        input = add32 v.input 1 % number_of_frames;
      });
      buf = store n.buf k (record (n.buf k) { used = add32 (n.buf k).used 1 });
    }

-- The loop that puts a broadcast frame into the rings of all VMs but `j`.
unfoldable pub spread : ℕ → ℕ → Net → ℕ → ℕ → Net
unfolding push
spread zero i n j k = n
spread (suc left) i n j k = spread left (i + 1) (if i == j then n else push n i k) j k

-- The buffer with the oldest frame leaves the ring of the VM.
unfoldable pub pop : Net → ℕ → ℕ → Net
pop n j k =
    let v = n.vms j in
    let b = n.buf k in
    record n {
      buf = store n.buf k (record b { used = sub32 b.used 1 });
      number_used_buffers =
          if sub32 b.used 1 == 0 then sub32 n.number_used_buffers 1 else n.number_used_buffers;
      vms = store n.vms j (record v { output = add32 v.output 1 % number_of_frames });
    }

abbrev pub set_size : Net → ℕ → ℕ → Net
set_size n k size = record n { buf = store n.buf k (record (n.buf k) { frame_size = size }) }

-- A broadcast frame waits for all VMs but `j`, and a frame for the VM `i` waits for that.
unfoldable pub to_all : Net → ℕ → ℕ → ℕ → Net
unfolding spread
to_all n j k size =
    let all : Net = spread n.vm_counter 0 (set_size n k size) j k in
    record all { number_used_buffers = add32 all.number_used_buffers 1 }

unfoldable pub to_one : Net → ℕ → ℕ → ℕ → Net
unfolding push
to_one n i k size = record (set_size (push n i k) k size) {
  number_used_buffers = add32 n.number_used_buffers 1;
}

module _ (mmu : Cpu → ℕ → ℕ) (b_buf : ℕ) where
  -- `b_buf[k].frame`; the struct has two words before it.
  abbrev pub frame_at : ℕ → ℕ
  frame_at k = b_buf + (mtu + 8) * k + 8

  abbrev pub octets : Net → ℕ → ℕ → ℕ
  octets n k i = n.port.memory (frame_at k + i)

  -- The frame in buffer `k` goes to the guest, and its size into V0.
  unfoldable pub hand_over : Net → ℕ → ℕ → ℕ → Net
  unfolding write_bytes
  hand_over n mapped k size =
      let c = n.hv.cpu in
      let c' = write_bytes (mmu c) c mapped (bytes_at n.port.memory (frame_at k) size) in
      record n { hv = reply (record n.hv { cpu = c' }) reg_v0 size }

  -- The part of `receive_frame` for a VM that has frames in its ring.
  unfoldable pub take_oldest : Net → ℕ → ℕ → Net
  unfolding hand_over pop
  take_oldest n j mapped =
      let k : ℕ = get_or (n.vms j).frame_list (n.vms j).output no_buffer in
      pop (hand_over n mapped k (n.buf k).frame_size) j k

  -- A frame that en_ll_input put into buffer `k`; the flag says whether the loop ends. The test of
  -- get_vm_destination's result for -1 is on an unsigned variable, and never true.
  unfoldable pub sort_frame : Net → ℕ → ℕ → ℕ → ℕ → Option (Net × Bool)
  unfolding hand_over to_all to_one maccmp is_broadcast get_vm_destination
  sort_frame n j mapped k size =
      let i : ℕ = get_vm_destination n (octets n k) in
      let shown : Net = hand_over n mapped k size in
      if maccmp (octets n k) (n.vms j).mac == 0 && is_broadcast (octets n k) == 0
      then (if ltb i number_of_vm then some (to_one n i k size, false) else none)
      else if is_broadcast (octets n k) == 0
      then some (shown, true)
      else some (to_all shown j k size, true)

  sort_input : Option (Port × ℕ) → Net → ℕ → ℕ → ℕ → Option (Net × Bool)
  unfolding sort_frame
  sort_input none n j mapped k = none
  sort_input (some (p, size)) n j mapped k =
      if size == 0
      then some (record n { port = p; hv = reply n.hv reg_v0 0 }, true)
      else sort_frame (record n { port = p }) j mapped k size

  -- A round of the loop of `receive_frame`. Without a free buffer the index is -1, and the test for it
  -- is on an unsigned variable too.
  unfoldable pub read_frame : ℕ → Net → ℕ → ℕ → Option (Net × Bool)
  unfolding get_free_buffer en_ll_input sort_input
  read_frame fuel n j mapped =
      let k : ℕ = get_free_buffer n in
      if ltb k number_of_frames
      then sort_input (en_ll_input fuel (frame_at k) n.port) n j mapped k
      else none

  unfoldable pub go_on : Option (Net × Bool) → (Net → Option Net) → Option Net
  go_on none again = none
  go_on (some (n, true)) again = some n
  go_on (some (n, false)) again = again n

  -- The loop.
  unfoldable pub read_frames : ℕ → ℕ → Net → ℕ → ℕ → Option Net
  unfolding read_frame go_on
  read_frames zero fuel n j mapped = none
  read_frames (suc rounds) fuel n j mapped =
      go_on (read_frame fuel n j mapped) (λ n'. read_frames rounds fuel n' j mapped)

  -- `receive_frame`. The test for a VM that is not registered is never true either.
  unfoldable pub receive_frame : ℕ → ℕ → Net → Option Net
  unfolding get_vm_buffer_pos take_oldest read_frames
  receive_frame rounds fuel n =
      let vm = n.hv.vm (n.hv.vcpu n.hv.vcpu_executing).vm in
      let frame_ptr = from_guest_gpr n.hv.cpu reg_a0 in
      let (c, mapped) = tlb_create_entry n.hv.cpu frame_ptr vm.base_addr mtu 0xf 1 in
      let n' : Net = record n { hv = record n.hv { cpu = c } } in
      let j : ℕ = get_vm_buffer_pos n vm.id in
      if ltb j number_of_vm
      then (if (n.vms j).input == (n.vms j).output
          then read_frames rounds fuel n' j mapped
          else some (take_oldest n' j mapped))
      else none

  -- `en_get_mac`: the guest gets the controller's address with its own last octet; the first two calls
  -- register their VMs.
  unfoldable pub en_get_mac : Net → Net
  unfolding write_bytes
  en_get_mac n =
      let vm = n.hv.vm (n.hv.vcpu n.hv.vcpu_executing).vm in
      let (c, mapped) =
        tlb_create_entry n.hv.cpu (from_guest_gpr n.hv.cpu reg_a0) vm.base_addr 6 0xf 1 in
      let mac = store n.macaddr 5 ((n.macaddr 5 + n.vm_counter) % 2 ^ 8) in
      let n' : Net = record n {
        hv = record n.hv { cpu = write_bytes (mmu c) c mapped (bytes_at mac 0 6) };
      } in
      if ltb n.vm_counter number_of_vm
      then record n' {
        vms = store n.vms n.vm_counter (record (n.vms n.vm_counter) { mac = mac; vm_id = vm.id });
        vm_counter = add32 n.vm_counter 1;
      }
      else n'
