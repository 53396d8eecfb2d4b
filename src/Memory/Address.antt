-- ===== src/Memory/Address.antt =====
-- src/memory/address.rs: typed addresses, and the 4 KiB frame and page coordinates they decompose
-- into. The newtypes over u32 and usize are numbers here; a `PhysAddr` or `VirtAddr` lies below
-- 2 ^ 32, which the theorems state where it matters. `Virt` has the methods of `VirtAddr` and
-- `PageNumber`.
pub mod Virt
pub mod Laws
use zkrnl.Base.{ℕ, ◌+◌, ◌/◌, ◌%◌, Bool, Result, mul_usize, ◌==◌, if◌then◌else◌}

abbrev pub PhysAddr : Type 0
PhysAddr = ℕ

abbrev pub FrameNumber : Type 0
FrameNumber = ℕ

-- `u32::div_ceil` and `usize::div_ceil`, whose sum cannot overflow.
unfoldable pub div_ceil : ℕ → ℕ → ℕ
div_ceil a b = if a % b == 0 then a / b else a / b + 1

unfoldable pub frame_floor : PhysAddr → FrameNumber
frame_floor a = a / 4096

unfoldable pub frame_ceil : PhysAddr → FrameNumber
unfolding div_ceil
frame_ceil a = div_ceil a 4096

unfoldable pub is_frame_aligned : PhysAddr → Bool
is_frame_aligned a = a % 4096 == 0

-- `FrameNumber::base_addr`: the product is on usize, with its overflow check.
unfoldable pub base_addr : FrameNumber → Result PhysAddr
base_addr n = mul_usize n 4096
