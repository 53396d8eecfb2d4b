-- ===== src/Memory/Paging/Entry.antt =====
-- src/memory/paging.rs: page-table and page-directory entries, each a u32.
pub mod Pack
use zkrnl.Base.{
  ℕ, ◌%◌, ◌^◌, bit_and, bit_or, Bool, not, Result, ok, require, assertion, ◌>>=◌, ◌>>◌, ◌==◌,
}
use zkrnl.Memory.Address.{FrameNumber, PhysAddr, frame_floor, base_addr}
use zkrnl.Memory.Paging.Flags.{
  PageFlags, from_bits, contains, present, address_mask, page_table_span,
}

abbrev pub empty : ℕ
empty = 0

-- `PageTableEntry::new`; `PageDirectoryEntry::for_table` has the same body.
unfoldable pub new : FrameNumber → PageFlags → Result ℕ
new frame flags = do base ← base_addr frame; ok (bit_or base flags)

unfoldable pub for_table : FrameNumber → PageFlags → Result ℕ
for_table frame flags = do base ← base_addr frame; ok (bit_or base flags)

unfoldable pub flags : ℕ → PageFlags
unfolding from_bits
flags e = from_bits e

-- `PageTableEntry::frame`, and `PageDirectoryEntry::table_frame` with the same body.
unfoldable pub frame : ℕ → FrameNumber
frame e = frame_floor (bit_and e address_mask)

unfoldable pub table_frame : ℕ → FrameNumber
table_frame e = frame_floor (bit_and e address_mask)

unfoldable pub is_present : ℕ → Bool
unfolding flags contains
is_present e = contains (flags e) present

abbrev pub page_size_bit : ℕ
page_size_bit = 2 ^ 7

-- The `debug_assert!` is on in the dev profile.
unfoldable pub for_huge_page : PhysAddr → PageFlags → Result ℕ
for_huge_page base flags = do
  require (base % page_table_span == 0) assertion
  ok (bit_or (bit_or base page_size_bit) flags)

unfoldable pub is_huge : ℕ → Bool
is_huge e = not (bit_and e page_size_bit == 0)
