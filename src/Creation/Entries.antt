-- ===== src/Creation/Entries.antt =====
-- The lines of the TLB that a new VM gets.
use prpl_hypervisor.Base.{◌*◌, ℕ, ◌^◌, ◌≡◌, bit_and, ◌==◌, if◌then◌else◌}
use prpl_hypervisor.Machine.{TlbEntries, TlbLine}
use prpl_hypervisor.Tlb.{entry_lo, shl, valid_dirty}

-- The lines that the TLB has: the program's last one is 0xf.
abbrev pub tlb_lines : ℕ
tlb_lines = 16

-- A line of the TLB that maps the pages of a configured entry for the guest with this id, which bits 16
-- to 23 of GuestCtl1 give; a page at 0 is not valid.
pub record Maps (guest : ℕ) (l : TlbLine) (t : TlbEntries) : Type 0 where
  pub rid : bit_and l.guestctl1 0xff0000 ≡ guest * 2 ^ 16
  pub even :
      l.entrylo0 ≡ entry_lo t.entrylo0 (if t.entrylo0 == 0 then 0 else valid_dirty) t.coherency
  pub odd :
      l.entrylo1 ≡ entry_lo t.entrylo1 (if t.entrylo1 == 0 then 0 else valid_dirty) t.coherency
  pub mask : l.pagemask ≡ shl t.pagemask 13
  pub page : l.entryhi ≡ bit_and (shl t.entryhi 12) 0xffffe000
