-- ===== src/Memory/Frame/Alloc.antt =====
-- src/memory/frame.rs: the search for a free run, allocation and release.
pub mod Scan
pub mod Allocate
pub mod Free
pub mod Ownership
pub mod Books
pub mod Count
pub mod Order
use zkrnl.Base.{
  ℕ, zero, suc, ◌+◌, ◌-◌, ◌*◌, ◌/◌, ◌%◌, ◌^◌, min, bit_and, bit_or, Bool, true, false, not, ◌||◌,
  Option, none, some, List, [], ◌∷◌, Result, ok, panic, overflow, out_of_bounds, assertion,
  double_free, fuel_spent, require, ◌>>=◌, ◌>>◌, add_usize, sub_usize, mul_usize, ltb, leb, ◌==◌,
  if◌then◌else◌, update,
}
use zkrnl.Word.{shl32}
use zkrnl.Utils.Bits.{word_bits}
use zkrnl.Memory.Frame.Bitmap.{
  frame_size, frame_count, word_count, FrameRun, new_run, end_exclusive, FrameBitmap, new, set_free,
  set_occupied, any_free_in,
}

unfoldable pub is_free : FrameBitmap → ℕ → Result Bool
is_free b frame = do
  require (ltb (frame / word_bits) word_count) out_of_bounds
  ok (not (bit_and (b.bitmap (frame / word_bits)) (shl32 1 (frame % word_bits)) == 0))

-- The loop of `scan_for_run` at `frame`, with so many frames left to `FRAME_COUNT`.
unfoldable pub scan : FrameBitmap → ℕ → ℕ → ℕ → ℕ → ℕ → Result (Option ℕ)
scan b count zero frame run_start run_len = ok none
scan b count (suc left) frame run_start run_len = is_free b frame >>= λ free. elim free [
  | false ↦ scan b count left (frame + 1) run_start 0
  | true ↦
      let run_start' = if run_len == 0 then frame else run_start in
      elim (run_len + 1 == count) [
        | true ↦ ok (some run_start')
        | false ↦ scan b count left (frame + 1) run_start' (run_len + 1)
      ]
]

unfoldable pub scan_for_run : FrameBitmap → ℕ → ℕ → Result (Option ℕ)
scan_for_run b start count = scan b count (frame_count - start) start 0 0

unfoldable pub find_free_run : FrameBitmap → ℕ → Result (Option ℕ)
find_free_run b count = do
  start ← mul_usize b.search_hint word_bits
  found ← scan_for_run b start count
  elim found [ some frame ↦ ok (some frame) | none ↦ scan_for_run b 0 count ]

unfoldable pub allocate : FrameBitmap → ℕ → Result (Option FrameRun × FrameBitmap)
allocate b count =
    if ltb frame_count count
    then ok (none, b)
    else find_free_run b count >>= λ found. elim found [
      | none ↦ ok (none, b)
      | some start ↦ do
        b' ← set_occupied b start count
        run ← new_run start count
        ok (some run, record b' { search_hint = (start + count) / word_bits })
    ]

unfoldable pub allocate_one : FrameBitmap → Result (Option FrameRun × FrameBitmap)
allocate_one b = allocate b 1

-- `FrameBitmap::free`
unfoldable pub free : FrameBitmap → FrameRun → Result FrameBitmap
free b run = do
  any ← any_free_in b run.start run.len
  require (not any) double_free
  b' ← set_free b run.start run.len
  ok (record b' { search_hint = min b'.search_hint (run.start / word_bits) })
