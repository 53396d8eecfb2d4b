-- ===== src/Memory/Frame/Bitmap.antt =====
-- src/memory/frame.rs: one bit to a frame, 1 when free, and the loops that read and write the bits of a
-- range of frames a word at a time. The bitmap is a function from word indices; an index past its last
-- word panics, as in the source.
pub mod Covers
pub mod Update
pub mod Any
use zkrnl.Base.{
  ℕ, zero, suc, ◌+◌, ◌-◌, ◌*◌, ◌/◌, ◌%◌, ◌^◌, min, bit_and, bit_or, Bool, true, false, not, ◌||◌,
  Option, none, some, List, [], ◌∷◌, Result, ok, panic, overflow, out_of_bounds, assertion,
  double_free, fuel_spent, require, ◌>>=◌, ◌>>◌, add_usize, sub_usize, mul_usize, ltb, leb, ◌==◌,
  if◌then◌else◌, update,
}
use zkrnl.Word.{not32}
use zkrnl.Utils.Bits.{word_bits, clipped_bit_range_mask}

abbrev pub frame_size : ℕ
frame_size = 4096

abbrev pub frame_count : ℕ
frame_count = 2 ^ 20

abbrev pub word_count : ℕ
word_count = frame_count / word_bits

-- A run of contiguous frames; `len` is a `NonZeroUsize`.
pub record FrameRun : Type 0 where
  pub start : ℕ
  pub len : ℕ

-- `FrameRun::new`, with its debug assertions.
unfoldable pub new_run : ℕ → ℕ → Result FrameRun
new_run start len = do
  require (ltb start frame_count) assertion
  require (leb len (frame_count - start)) assertion
  ok (record { start = start; len = len })

unfoldable pub end_exclusive : FrameRun → ℕ
end_exclusive run = run.start + run.len

pub record FrameBitmap : Type 0 where
  pub bitmap : ℕ → ℕ
  pub search_hint : ℕ

-- `FrameBitmap::new`
abbrev pub new : FrameBitmap
new = record { bitmap = λ _. 0; search_hint = 0 }

-- The state that the iterator of `word_masks` captures.
pub record WordMasks : Type 0 where
  pub word_i : ℕ
  pub bit : ℕ
  pub remaining : ℕ

unfoldable pub word_masks : ℕ → ℕ → WordMasks
word_masks start len = record {
  word_i = start / word_bits;
  bit = start % word_bits;
  remaining = len;
}

-- The closure that the iterator calls.
unfoldable pub next_mask : WordMasks → Result (Option ((ℕ × ℕ) × WordMasks))
next_mask s =
    if s.remaining == 0
    then ok none
    else clipped_bit_range_mask s.bit s.remaining >>= λ (mask, taken). ok (
        some (
          (s.word_i, mask),
          record { word_i = s.word_i + 1; bit = 0; remaining = s.remaining - taken },
        ))

-- All that the iterator yields. Every mask takes a bit or more, so `remaining` rounds and one for the
-- end are enough (`Bitmap.Covers`).
unfoldable pub collect_masks : ℕ → WordMasks → Result (List (ℕ × ℕ))
collect_masks zero s = panic fuel_spent
collect_masks (suc n) s = next_mask s >>= λ r. elim r [
  | none ↦ ok []
  | some (item, s') ↦ collect_masks n s' >>= λ items. ok (item ∷ items)
]

unfoldable pub masks : ℕ → ℕ → Result (List (ℕ × ℕ))
unfolding word_masks collect_masks
masks start len = collect_masks (suc len) (word_masks start len)

-- The loop bodies of `set_free`, `set_occupied` and `any_free_in` over those masks.
unfoldable pub or_words : List (ℕ × ℕ) → (ℕ → ℕ) → Result (ℕ → ℕ)
or_words [] words = ok words
or_words ((i, mask) ∷ items) words = do
  require (ltb i word_count) out_of_bounds
  or_words items (update words i (bit_or (words i) mask))

unfoldable pub and_not_words : List (ℕ × ℕ) → (ℕ → ℕ) → Result (ℕ → ℕ)
and_not_words [] words = ok words
and_not_words ((i, mask) ∷ items) words = do
  require (ltb i word_count) out_of_bounds
  and_not_words items (update words i (bit_and (words i) (not32 mask)))

unfoldable pub any_word : List (ℕ × ℕ) → (ℕ → ℕ) → Result Bool
any_word [] words = ok false
any_word ((i, mask) ∷ items) words =
    let rest = any_word items words in
    do
      require (ltb i word_count) out_of_bounds
      if bit_and (words i) mask == 0 then rest else ok true

unfoldable pub set_free : FrameBitmap → ℕ → ℕ → Result FrameBitmap
unfolding masks or_words
set_free b start len = do
  items ← masks start len
  words ← or_words items b.bitmap
  ok (record b { bitmap = words })

unfoldable pub set_occupied : FrameBitmap → ℕ → ℕ → Result FrameBitmap
unfolding masks and_not_words
set_occupied b start len = do
  items ← masks start len
  words ← and_not_words items b.bitmap
  ok (record b { bitmap = words })

unfoldable pub any_free_in : FrameBitmap → ℕ → ℕ → Result Bool
unfolding masks any_word
any_free_in b start len = masks start len >>= λ items. any_word items b.bitmap
