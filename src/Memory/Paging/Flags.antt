-- ===== src/Memory/Paging/Flags.antt =====
-- src/memory/paging.rs: `PageFlags`, the control bits in the low twelve bits of an entry.
pub mod Laws
use zkrnl.Base.{ℕ, ◌-◌, ◌^◌, bit_and, bit_or, Bool, ◌==◌}
use zkrnl.Word.{not32}

abbrev pub page_size : ℕ
page_size = 4096

abbrev pub entry_count : ℕ
entry_count = 1024

-- 4 MiB: what one page table maps, and the size of a huge page.
abbrev pub page_table_span : ℕ
page_table_span = 0x40_0000

abbrev pub flags_mask : ℕ
flags_mask = page_size - 1

abbrev pub address_mask : ℕ
address_mask = not32 flags_mask

abbrev pub PageFlags : Type 0
PageFlags = ℕ

abbrev pub present : PageFlags
present = 1

abbrev pub writable : PageFlags
writable = 2 ^ 1

abbrev pub user : PageFlags
user = 2 ^ 2

abbrev pub write_through : PageFlags
write_through = 2 ^ 3

abbrev pub cache_disable : PageFlags
cache_disable = 2 ^ 4

abbrev pub accessed : PageFlags
accessed = 2 ^ 5

abbrev pub dirty : PageFlags
dirty = 2 ^ 6

abbrev pub global : PageFlags
global = 2 ^ 8

abbrev pub empty : PageFlags
empty = 0

abbrev pub bits : PageFlags → ℕ
bits a = a

unfoldable pub from_bits : ℕ → PageFlags
from_bits raw = bit_and raw flags_mask

unfoldable pub union : PageFlags → PageFlags → PageFlags
union a b = bit_or a b

-- `impl BitOr`
unfoldable pub bitor : PageFlags → PageFlags → PageFlags
unfolding union
bitor a b = union a b

unfoldable pub contains : PageFlags → PageFlags → Bool
contains a b = bit_and a b == b

abbrev pub kernel_ro : PageFlags
kernel_ro = present

unfoldable pub kernel_rw : PageFlags
unfolding union
kernel_rw = union present writable

unfoldable pub user_ro : PageFlags
unfolding union
user_ro = union present user

unfoldable pub user_rw : PageFlags
unfolding union
user_rw = union (union present writable) user
