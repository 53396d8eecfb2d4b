-- ===== src/Memory/Frame/Alloc/Allocate.antt =====
-- Allocation: which frames `allocate` hands out, when it fails, and what it changes.
use zkrnl.Base.{
  ℕ, ◌+◌, ◌-◌, ◌*◌, ◌/◌, ◌≤◌, ◌<◌, ◌≡◌, refl, ok, arith, if◌then◌else◌, lt_or_le, inl, inr, ap, sym,
  ◌⊎◌, Option, none, some,
}
use mathlib.Core.Path.{subst₂}
use zkrnl.Utils.Bits.Mask.{within}
use zkrnl.Memory.Frame.Bitmap.{frame_count, FrameRun, FrameBitmap, new_run, set_occupied}
use zkrnl.Memory.Frame.Bitmap.Update.{frame_bit, AreWords, set_occupied-Wrote}
use zkrnl.Memory.Frame.Alloc.{allocate, find_free_run}
use zkrnl.Memory.Frame.Alloc.Scan.{IsRun, NoRun, find_free_run-NextFit}

-- The documented invariant of the search hint, and the width of the bitmap's words.
pub record IsValid (b : FrameBitmap) : Type 0 where
  pub hint_in_range : b.search_hint ≤ 32768
  pub words : AreWords b.bitmap

-- What a successful allocation of `count` frames at `start` does: the run lies in the address space
-- and was free, it is the first one at or after the hint or else the first of all, exactly its frames
-- become occupied, and the hint moves past it.
pub record Grants (b : FrameBitmap) (count start : ℕ) (b' : FrameBitmap) : Type 0 where
  pub in_range : start + count ≤ frame_count
  pub was_free : IsRun b.bitmap start count
  pub next_fit :
      ((b.search_hint * 32 ≤ start) × NoRun b.bitmap count (b.search_hint * 32) start)
      ⊎ (NoRun b.bitmap count (b.search_hint * 32) (frame_count + 1 - count)
          × NoRun b.bitmap count 0 start)
  pub occupied :
      (f : ℕ)
      → frame_bit b'.bitmap f ≡ (if within start (start + count) f then 0 else frame_bit b.bitmap f)
  pub hint : b'.search_hint ≡ (start + count) / 32
  pub valid : IsValid b'

abbrev pub granted : ℕ → ℕ → Option FrameRun
granted start count = some (record { start = start; len = count })

new_run-ok :
    (start len : ℕ)
    → 0 < len
    → start + len ≤ frame_count
    → new_run start len ≡ ok (record { start = start; len = len })
unfolding new_run
new_run-ok start len p q = ground arith

allocate-found :
    (b : FrameBitmap) (count start : ℕ) {b' : FrameBitmap}
    → 0 < count
    → start + count ≤ frame_count
    → find_free_run b count ≡ ok (some start)
    → set_occupied b start count ≡ ok b'
    → allocate b count ≡ ok (granted start count, record b' { search_hint = (start + count) / 32 })
unfolding allocate
allocate-found b count start pos fits found set = ground (arith, new_run-ok start count pos fits)

-- On a valid bitmap and a count that is not zero, `allocate` never panics. It returns `none` and leaves
-- the allocator alone exactly when no run of `count` contiguous free frames exists, and otherwise
-- grants one.
pub allocate_lem :
    (b : FrameBitmap) (count : ℕ)
    → IsValid b
    → 0 < count
    → ((allocate b count ≡ ok (none, b)) × NoRun b.bitmap count 0 (frame_count + 1 - count))
      ⊎ ((start : ℕ) × (b' : FrameBitmap) × (allocate b count ≡ ok (granted start count, b'))
          × Grants b count start b')
allocate_lem b count v pos = elim (lt_or_le frame_count count) [
  | inl large ↦ inl (unfold allocate in ground arith, λ t p q. absurd (omega arith))
  | inr fits ↦ elim (find_free_run-NextFit b count pos v.hint_in_range) [
    | inl (e, absent) ↦ inl (unfold allocate in ground arith, absent)
    | inr (start, e, in_range, run, fit) ↦
        let (b', set, hint, bits, words) = set_occupied-Wrote b start count in_range in
        inr (
          start,
          record b' { search_hint = (start + count) / 32 },
          allocate-found b count start pos in_range e set,
          record {
            in_range = in_range;
            was_free = run;
            next_fit = fit;
            occupied = bits;
            hint = refl;
            valid = record { hint_in_range = omega arith; words = words v.words };
          },
        )
  ]
]

-- Inversion: what is known of a run that `allocate` has returned.
pub allocate-Grants :
    (b : FrameBitmap) (count : ℕ) {run : FrameRun} {b' : FrameBitmap}
    → IsValid b
    → 0 < count
    → allocate b count ≡ ok (some run, b')
    → Grants b count run.start b' × (run.len ≡ count)
allocate-Grants b count {run} {b'} v pos e = elim (allocate_lem b count v pos) [
  | inl (e', absent) ↦ cc
  | inr (start, b0, e', grants) ↦
      let same_run : record { start = start; len = count } ≡ run = ground arith in
      let same_start : start ≡ run.start = ap (λ (r : FrameRun). r.start) same_run in
      let same_len : count ≡ run.len = ap (λ (r : FrameRun). r.len) same_run in
      let same_bitmap : b0 ≡ b' = ground arith in
      (subst₂ (λ s c. Grants b count s c) same_start same_bitmap grants, sym same_len)
]
