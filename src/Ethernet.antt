-- ===== src/Ethernet.antt =====
-- drivers/pic32mz-ethernet-shared.c: how frames leave the ring of descriptors that the controller fills.
-- The driver's counters of a frame that is being read are arguments of the loops, since they are 0
-- before and after each call. A loop whose fuel is used up has no result.
mod Pages
mod Return
pub mod Input
mod Tests
use prpl_hypervisor.Base.{
  ℕ, zero, suc, ◌+◌, ◌-◌, ◌*◌, ◌/◌, ◌%◌, ◌^◌, Bool, not, ◌||◌, Option, none, some, add32, sub32,
  ltb, ◌==◌, if◌then◌else◌, bit_and, bit_or,
}
use prpl_hypervisor.Machine.{store}
use prpl_hypervisor.Libc.{memcpy}

-- RX_DESCRIPTORS and RX_BYTES_PER_DESC
abbrev pub rx_descriptors : ℕ
rx_descriptors = 48

abbrev pub rx_bytes_per_desc : ℕ
rx_bytes_per_desc = 128

-- `eth_desc_t`; `ctl` is not used.
pub record Desc : Type 0 where
  pub hdr : ℕ
  pub paddr : ℕ
  pub status : ℕ

-- `struct eth_port` and the index of the next frame; the number of descriptors that were reported to the
-- controller as free (BUFCDEC), and the memory.
pub record Port : Type 0 where
  pub is_up : ℕ
  pub rx_desc : ℕ → Desc
  pub receive_index : ℕ
  pub returned : ℕ
  pub memory : ℕ → ℕ

-- DESC_EOWN, DESC_EOP, DESC_BYTECNT, DESC_FRAMESZ and DESC_SET_EOWN
unfoldable pub desc_eown : Desc → Bool
desc_eown d = not (bit_and d.hdr 0x80 == 0)

unfoldable pub desc_eop : Desc → Bool
desc_eop d = not (bit_and d.hdr 0x40000000 == 0)

unfoldable pub desc_bytecnt : Desc → ℕ
desc_bytecnt d = d.hdr / 2 ^ 16 % 2 ^ 11

unfoldable pub desc_framesz : Desc → ℕ
desc_framesz d = d.status % 2 ^ 16

unfoldable pub desc_set_eown : Desc → Desc
desc_set_eown d = record d { hdr = bit_or d.hdr 0x80 }

-- MACH_PHYS_TO_VIRT
unfoldable pub mach_phys_to_virt : ℕ → ℕ
mach_phys_to_virt x = bit_or x 0xa0000000

-- INCR_RX_INDEX
abbrev pub incr_rx_index : ℕ → ℕ
incr_rx_index i = (i + 1) % rx_descriptors

unfoldable pub min_word : ℕ → ℕ → ℕ
min_word a b = if ltb a b then a else b

-- The first loop of `en_ll_input`: `size` is frame_size, which counts down, and `read` is read_nbytes.
unfoldable pub copy_pages : ℕ → (ℕ → Desc) → ℕ → ℕ → ℕ → ℕ → ℕ → (ℕ → ℕ) → Option (ℕ → ℕ)
unfolding min_word
copy_pages zero desc index offset size read buf m = none
copy_pages (suc fuel) desc index offset size read buf m =
    let nbytes : ℕ = desc_bytecnt (desc index) in
    let cb : ℕ = min_word (sub32 nbytes offset) size in
    let m' = (memcpy m buf (mach_phys_to_virt (add32 (desc index).paddr offset)) cb).0 in
    let page = copy_pages fuel desc (incr_rx_index index) 0 (size - cb) (read + cb) (buf + cb) m' in
    let rest = copy_pages fuel desc index (offset + cb) (size - cb) (read + cb) (buf + cb) m' in
    if size == 0
    then some m
    else if desc_eown (desc index)
    then some m
    else if offset + cb == nbytes
    then (if desc_eop (desc index) || (read + cb == size - cb) then some m' else page)
    else rest

-- The second loop of `en_ll_input`: the frame's descriptors go back to the controller.
unfoldable pub give_back : ℕ → Port → Option Port
give_back zero p = none
give_back (suc fuel) p =
    let i : ℕ = p.receive_index in
    let p' : Port = record p {
      rx_desc = store p.rx_desc i (desc_set_eown (p.rx_desc i));
      returned = p.returned + 1;
      receive_index = incr_rx_index i;
    } in
    let rest = give_back fuel p' in
    if desc_eown (p.rx_desc i) then some p else if desc_eop (p.rx_desc i) then some p' else rest

-- `en_ll_input` behind its checks.
input_size : Option Port → ℕ → Option (Port × ℕ)
input_size none size = none
input_size (some p) size = some (p, size)

input_frame : ℕ → Port → Option (ℕ → ℕ) → ℕ → Option (Port × ℕ)
unfolding give_back input_size
input_frame fuel p none size = none
input_frame fuel p (some m) size = input_size (give_back fuel (record p { memory = m })) size

-- `en_ll_input`: the frame at the index is copied to `frame`; the result is its size, or 0.
unfoldable pub en_ll_input : ℕ → ℕ → Port → Option (Port × ℕ)
unfolding copy_pages input_frame
en_ll_input fuel frame p =
    let first : Desc = p.rx_desc p.receive_index in
    let size : ℕ = desc_framesz first in
    if p.is_up == 0
    then some (p, 0)
    else if desc_eown first
    then some (p, 0)
    else if size == 0
    then some (p, 0)
    else input_frame fuel p (copy_pages fuel p.rx_desc p.receive_index 0 size 0 frame p.memory) size
