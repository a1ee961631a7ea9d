-- ===== src/Sharing/Output.antt =====
-- Sending: send_frame and en_ll_output. `readings` are what ETHCON1 shows while the driver waits for the
-- controller to be ready; the wait has no result when its fuel is used up. `tx_buf` is the address of
-- the buffer, of 1536 bytes, and `tx_desc` that of the descriptor.
use prpl_hypervisor.Base.{
  ℕ, zero, suc, ◌+◌, ◌*◌, ◌%◌, ◌^◌, ◌≤◌, ◌<◌, ◌≡◌, ◌⊎◌, Option, none, some, List, [], ◌∷◌, ◌==◌,
  if◌then◌else◌, true, ltb, leb, ◌&&◌, bit_and, bit_or, ◌/◌, Bool, add32,
}
use prpl_hypervisor.Machine.{Hypervisor, Cpu, store, from_guest_gpr, reg_a0, reg_a1, reg_v0}
use prpl_hypervisor.Tlb.{tlb_create_entry}
use prpl_hypervisor.InterVm.{reply, read_bytes}
use prpl_hypervisor.Libc.{rounds}
use prpl_hypervisor.Ethernet.{desc_bytecnt, desc_eown, desc_eop, Desc, mach_phys_to_virt}
use prpl_hypervisor.Sharing.{mtu}

-- MACH_VIRT_TO_PHYS
unfoldable pub mach_virt_to_phys : ℕ → ℕ
mach_virt_to_phys x = bit_and x 0x1fffffff

-- The hypervisor and its memory, the descriptor, ETHTXST, and the number of requests to send.
pub record Sender : Type 0 where
  pub hv : Hypervisor
  pub memory : ℕ → ℕ
  pub desc : Desc
  pub ethtxst : ℕ
  pub requests : ℕ

-- The loop that waits for TXRTS to be clear.
unfoldable pub wait_sent : ℕ → (ℕ → ℕ) → ℕ → Option ℕ
wait_sent zero readings i = none
wait_sent (suc fuel) readings i =
    let rest = wait_sent fuel readings (i + 1) in
    if bit_and (readings i) 0x200 == 0 then some i else rest

-- The descriptor of a frame: DESC_SET_BYTECNT, DESC_SET_SOP, DESC_SET_EOWN and DESC_SET_EOP on 0.
unfoldable pub frame_desc : ℕ → ℕ → Desc → Desc
unfolding mach_virt_to_phys
frame_desc frame size d = record d {
  paddr = mach_virt_to_phys frame;
  hdr =
      bit_or (bit_or (bit_or (bit_or (bit_and 0 0xf800ffff) (size * 2 ^ 16)) 0x80000000) 0x80)
        0x40000000;
}

request : Option ℕ → ℕ → ℕ → ℕ → Sender → Option Sender
unfolding frame_desc
request none tx_desc frame size s = none
request (some i) tx_desc frame size s = some (record s {
  desc = frame_desc frame size s.desc;
  ethtxst = mach_virt_to_phys tx_desc;
  requests = s.requests + 1;
})

-- `en_ll_output`
unfoldable pub en_ll_output : ℕ → (ℕ → ℕ) → ℕ → ℕ → ℕ → Sender → Option Sender
unfolding wait_sent request
en_ll_output fuel readings tx_desc frame size s =
    if ltb 0 size && leb size mtu
    then request (wait_sent fuel readings 0) tx_desc frame size s
    else some s

-- How many bytes `memcpy` copies: its count is signed, and counts words if all is aligned.
unfoldable pub copied_size : ℕ → ℕ → ℕ → ℕ
copied_size dst src size =
    if bit_and (bit_or (bit_or dst src) size) 3 == 0 then 4 * rounds (size / 2 ^ 2) else rounds size

-- `memcpy` of the bytes of the guest.
unfoldable pub put_bytes : (ℕ → ℕ) → ℕ → List ℕ → ℕ → ℕ
put_bytes m a [] = m
put_bytes m a (b ∷ bs) = put_bytes (store m a b) (add32 a 1) bs

-- A descriptor that hands a whole frame of `size` bytes at `frame` to the controller: its own bits say
-- start and end of the packet.
pub record IsFrame (d : Desc) (frame size : ℕ) : Type 0 where
  pub bytes : desc_bytecnt d ≡ size
  pub owned : desc_eown d ≡ true
  pub ends : desc_eop d ≡ true
  pub starts : bit_and d.hdr 0x80000000 ≡ 0x80000000
  pub place : d.paddr ≡ bit_and frame 0x1fffffff

unfoldable describes : Desc → ℕ → Bool
describes d size =
    (desc_bytecnt d == size)
    && (desc_eown d && (desc_eop d && (bit_and d.hdr 0x80000000 == 0x80000000)))

module _ (mmu : Cpu → ℕ → ℕ) (tx_buf tx_desc : ℕ) where
  -- `send_frame`; en_ll_output takes the size as 16 bits.
  unfoldable pub send_frame : ℕ → (ℕ → ℕ) → Sender → Option Sender
  unfolding en_ll_output read_bytes copied_size put_bytes mach_virt_to_phys mach_phys_to_virt
  send_frame fuel readings s =
      let vm = s.hv.vm (s.hv.vcpu s.hv.vcpu_executing).vm in
      let size = from_guest_gpr s.hv.cpu reg_a1 in
      let (c, mapped) =
        tlb_create_entry s.hv.cpu (from_guest_gpr s.hv.cpu reg_a0) vm.base_addr size 0xf 1 in
      let buf = mach_phys_to_virt (mach_virt_to_phys tx_buf) in
      en_ll_output fuel readings tx_desc buf (size % 2 ^ 16) (record s {
        hv = reply (record s.hv { cpu = c }) reg_v0 size;
        memory = put_bytes s.memory buf (read_bytes (mmu c) c mapped (copied_size buf mapped size));
      })

  abbrev pub asked_size : Sender → ℕ
  asked_size s = from_guest_gpr s.hv.cpu reg_a1

  abbrev pub sent_mapping : Sender → Cpu × ℕ
  sent_mapping s =
      tlb_create_entry s.hv.cpu (from_guest_gpr s.hv.cpu reg_a0)
        (s.hv.vm (s.hv.vcpu s.hv.vcpu_executing).vm).base_addr (asked_size s) 0xf 1

  abbrev pub sent_bytes : Sender → List ℕ
  sent_bytes s = let (c, mapped) = sent_mapping s in read_bytes (mmu c) c mapped (asked_size s)

  abbrev pub send_buffer : ℕ
  send_buffer = mach_phys_to_virt (mach_virt_to_phys tx_buf)

  -- The frame is requested to be sent, or not.
  abbrev pub IsRequested : Sender → Sender → Type 0
  IsRequested s s' =
      let size = asked_size s % 2 ^ 16 in
      ((0 < size)
        × (size ≤ mtu)
        × IsFrame s'.desc send_buffer size
        × (s'.ethtxst ≡ bit_and tx_desc 0x1fffffff)
        × (s'.requests ≡ s.requests + 1))
      ⊎ (((size ≡ 0) ⊎ (mtu < size)) × (s'.desc ≡ s.desc) × (s'.requests ≡ s.requests))
