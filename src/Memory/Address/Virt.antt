-- ===== src/Memory/Address/Virt.antt =====
-- src/memory/address.rs: `VirtAddr` and `PageNumber`.
use zkrnl.Base.{ℕ, ◌/◌, ◌%◌, ◌^◌, bit_and, bit_or, Bool, Result, mul_usize, ◌==◌}
use zkrnl.Word.{shl32, shr32}
use zkrnl.Memory.Address.{div_ceil}

abbrev pub VirtAddr : Type 0
VirtAddr = ℕ

abbrev pub PageNumber : Type 0
PageNumber = ℕ

unfoldable pub page_floor : VirtAddr → PageNumber
page_floor a = a / 4096

unfoldable pub page_ceil : VirtAddr → PageNumber
unfolding div_ceil
page_ceil a = div_ceil a 4096

-- The top ten bits, the middle ten and the low twelve.
unfoldable pub pd_index : VirtAddr → ℕ
pd_index a = shr32 a 22

unfoldable pub pt_index : VirtAddr → ℕ
pt_index a = bit_and (shr32 a 12) 0x3FF

unfoldable pub offset : VirtAddr → ℕ
offset a = bit_and a 0xFFF

-- The shifts are on usize, which is as wide as the u32 that the result is cast to.
unfoldable pub from_indices : ℕ → ℕ → ℕ → VirtAddr
from_indices pd pt off = bit_or (bit_or (shl32 pd 22) (shl32 pt 12)) off % 2 ^ 32

unfoldable pub is_page_aligned : VirtAddr → Bool
is_page_aligned a = a % 4096 == 0

-- `PageNumber::base_addr`
unfoldable pub base_addr : PageNumber → Result VirtAddr
base_addr n = mul_usize n 4096
