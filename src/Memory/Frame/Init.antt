-- ===== src/Memory/Frame/Init.antt =====
-- src/memory/frame.rs: `init`, which publishes the usable regions of the memory map and then reserves
-- the first frame and the kernel image.
pub mod Publish
pub mod Boot
use zkrnl.Base.{
  ℕ, ◌-◌, ◌/◌, ◌%◌, ◌^◌, min, not, ◌||◌, Result, ok, ◌>>=◌, add_usize, sub_usize, ◌==◌,
  if◌then◌else◌,
}
use zkrnl.Utils.Bits.{word_bits}
use zkrnl.Multiboot.{MemoryRegion, MemoryMap, addressable_bytes, is_available, for_regions}
use zkrnl.Memory.Address.{div_ceil, frame_floor, frame_ceil}
use zkrnl.Memory.Layout.{Layout}
use zkrnl.Memory.Frame.Bitmap.{frame_size, FrameBitmap, set_free, set_occupied}

unfoldable pub mark_free : FrameBitmap → ℕ → ℕ → Result FrameBitmap
mark_free b start count = do
  b' ← set_free b start count
  ok (record b' { search_hint = min b'.search_hint (start / word_bits) })

-- The loop body of `init`. `as usize` keeps the low 32 bits; `base + bytes` has its overflow check.
unfoldable pub publish : FrameBitmap → MemoryRegion → Result FrameBitmap
publish b region = do
  len ← addressable_bytes region
  let bytes = len % 2 ^ 32
  if not (is_available region) || bytes == 0 then ok b else do
    let base = region.base % 2 ^ 32
    let start = div_ceil base frame_size
    limit ← add_usize base bytes
    if limit / frame_size - start == 0 then ok b else mark_free b start (limit / frame_size - start)

unfoldable pub reserve_bytes : FrameBitmap → ℕ → ℕ → Result FrameBitmap
reserve_bytes b addr len = do
  limit ← add_usize addr len
  count ← sub_usize (frame_ceil (limit % 2 ^ 32)) (frame_floor (addr % 2 ^ 32))
  set_occupied b (frame_floor (addr % 2 ^ 32)) count

-- `FrameBitmap::init`
unfoldable pub init : Layout → MemoryMap → FrameBitmap → Result FrameBitmap
init l mmap b = do
  published ← for_regions publish mmap b
  low ← reserve_bytes published 0 frame_size
  kernel_len ← sub_usize l.kernel_phys_end_addr l.kernel_phys_start_addr
  reserve_bytes low l.kernel_phys_start_addr kernel_len
