-- ===== src/Tlb.antt =====
-- arch/mips/common/tlb.c: writing a TLB entry, and mapping a guest's buffer for the hypervisor.
-- The hardware's translation of addresses is not modelled here: what uses the mapping takes it as a
-- parameter.
use prpl_hypervisor.Base.{
  ℕ, ◌*◌, ◌/◌, ◌%◌, ◌^◌, bit_and, bit_or, add32, sub32, ltb, ◌==◌, if◌then◌else◌,
}
use prpl_hypervisor.Machine.{Cpu, TlbEntry, mfc0, mtc0, complement, store, cp0_guestctl1}

-- `x << n` on `uint32_t`.
abbrev pub shl : ℕ → ℕ → ℕ
shl x n = x * 2 ^ n % 2 ^ 32

-- `setGuestRID` of arch/mips/common/hal.c; GUESTCTL1_RID is 0xff << 16.
unfoldable pub set_guest_rid : Cpu → ℕ → Cpu
set_guest_rid c rid =
    mtc0 c cp0_guestctl1 4
      (bit_or (bit_and (mfc0 c cp0_guestctl1 4) (complement 0xff0000)) (shl rid 16))

-- `tlb_commit`, the instruction `tlbwi`: the line that CP0 Index names gets what the registers hold. This
-- stands for an index of a line that the processor has; behind its last line the effect is undefined.
unfoldable pub tlb_commit : Cpu → Cpu
tlb_commit c = record c {
  tlb = store c.tlb (mfc0 c 0 0) (record {
    guestctl1 = mfc0 c cp0_guestctl1 4;
    entrylo0 = mfc0 c 2 0;
    entrylo1 = mfc0 c 3 0;
    pagemask = mfc0 c 5 0;
    entryhi = mfc0 c 10 0;
  });
}

unfoldable pub entry_lo : ℕ → ℕ → ℕ → ℕ
entry_lo frame flags coherency = bit_or (bit_or (shl frame 6) flags) (shl coherency 3)

-- `tlbEntryWrite`: Index, EntryLo0, EntryLo1, PageMask and EntryHi are CP0 2, 3, 5 and 10 after 0.
unfoldable pub tlb_entry_write : Cpu → TlbEntry → Cpu
unfolding set_guest_rid tlb_commit entry_lo
tlb_entry_write c0 e =
    let c1 = set_guest_rid c0 e.guestid in
    let c2 = mtc0 c1 0 0 e.index in
    let c3 = mtc0 c2 2 0 (entry_lo e.entrylo0 e.lo0flags e.coherency) in
    let c4 = mtc0 c3 3 0 (entry_lo e.entrylo1 e.lo1flags e.coherency) in
    let c5 = mtc0 c4 5 0 (shl e.pagemask 13) in
    let c6 = mtc0 c5 10 0 (bit_and (shl e.entryhi 12) 0xffffe000) in tlb_commit c6

-- KSEG0 or KSEG1.
abbrev pub segment : ℕ → ℕ
segment use_cache = if use_cache == 0 then 0xa0000000 else 0x80000000

-- ENTRYLO_V | ENTRYLO_D
abbrev pub valid_dirty : ℕ
valid_dirty = 6

unfoldable pub temporary_entry : ℕ → ℕ → ℕ → ℕ → ℕ → TlbEntry
temporary_entry address baseaddr size tlbindex use_cache =
    let crosses = ltb (address / 0x1000) (add32 address size / 0x1000) in
    let offset = sub32 baseaddr 0x80000000 in
    record {
      guestid = 0;
      index = tlbindex;
      entrylo0 = add32 offset (sub32 address 0x80000000) / 2 ^ 12;
      lo0flags = valid_dirty;
      entrylo1 =
          if crosses then sub32 (add32 (add32 offset address) size) 0x80000000 / 2 ^ 12 else 0;
      lo1flags = if crosses then valid_dirty else 0;
      pagemask = 0;
      entryhi = sub32 baseaddr (segment use_cache) / 2 ^ 12;
      coherency = if use_cache == 0 then 2 else 4;
    }

-- `tlbCreateEntry`: the processor with the entry written, and the mapped address.
unfoldable pub tlb_create_entry : Cpu → ℕ → ℕ → ℕ → ℕ → ℕ → Cpu × ℕ
unfolding temporary_entry tlb_entry_write
tlb_create_entry c address baseaddr size tlbindex use_cache = (
  tlb_entry_write c (temporary_entry address baseaddr size tlbindex use_cache),
  sub32 (add32 (bit_and address 0xfff) baseaddr) (segment use_cache),
)
