-- ===== src/Memory/Frame/Bitmap/Update.antt =====
-- What `set_free` and `set_occupied` do to each frame.
use zkrnl.Base.{
  ℕ, ◌+◌, ◌/◌, ◌%◌, ◌^◌, ◌≤◌, ◌<◌, bit_and, bit_or, ◌≡◌, refl, List, [], ◌∷◌, ok, panic,
  out_of_bounds, Result, arith, if◌then◌else◌, update, lt_or_le, inl, inr,
}
use zkrnl.Word.{not32}
use zkrnl.Word.Bit.{bit, bit-le-one, bit-bit_and, bit-bit_or, bit-complement, bit_or-lt, bit_and-le}
use zkrnl.Utils.Bits.Mask.{within, range_mask, range_mask-lt, bit-range_mask}
use zkrnl.Memory.Frame.Bitmap.{
  frame_count, FrameBitmap, set_free, set_occupied, or_words, and_not_words,
}
use zkrnl.Memory.Frame.Bitmap.Covers.{Covers, Covers-le, masks-Covers}

-- The bit of a frame in the words of the bitmap: 1 when the frame is free.
abbrev pub frame_bit : (ℕ → ℕ) → ℕ → ℕ
frame_bit words f = bit (words (f / 32)) (f % 32)

-- Every word of the bitmap is a u32.
abbrev pub AreWords : (ℕ → ℕ) → Type 0
AreWords words = (i : ℕ) → words i < 2 ^ 32

frame_bit-or :
    (words : ℕ → ℕ) (lo n f : ℕ)
    → lo % 32 + n ≤ 32
    → let i = lo / 32 in
      frame_bit (update words i (bit_or (words i) (range_mask (lo % 32) (lo % 32 + n)))) f
      ≡ (if within lo (lo + n) f then 1 else frame_bit words f)
frame_bit-or words lo n f h = ground (
  arith,
  bit-bit_or (words (lo / 32)) (range_mask (lo % 32) (lo % 32 + n)) (f % 32),
  bit-range_mask (lo % 32) (lo % 32 + n) (f % 32) h,
  bit-le-one (words (lo / 32)) (f % 32),
)

frame_bit-and_not :
    (words : ℕ → ℕ) (lo n f : ℕ)
    → lo % 32 + n ≤ 32
    → let i = lo / 32 in
      frame_bit (update words i (bit_and (words i) (not32 (range_mask (lo % 32) (lo % 32 + n))))) f
      ≡ (if within lo (lo + n) f then 0 else frame_bit words f)
frame_bit-and_not words lo n f h = ground (
  arith,
  bit-bit_and (words (lo / 32)) (not32 (range_mask (lo % 32) (lo % 32 + n))) (f % 32),
  bit-complement 32 (range_mask (lo % 32) (lo % 32 + n)) (f % 32)
      (range_mask-lt (lo % 32) (lo % 32 + n)),
  bit-range_mask (lo % 32) (lo % 32 + n) (f % 32) h,
  bit-le-one (words (lo / 32)) (f % 32),
)

-- A loop over masks returns words in which the frames `lo` to `hi - 1` have that bit, every other
-- frame has the bit it had, and each word is still a u32.
pub record Wrote (value lo hi : ℕ) (words : ℕ → ℕ) (result : Result (ℕ → ℕ)) : Type 0 where
  pub out : ℕ → ℕ
  pub returns : result ≡ ok out
  pub bits : (f : ℕ) → frame_bit out f ≡ (if within lo hi f then value else frame_bit words f)
  pub are_words : AreWords words → AreWords out

or_words-Wrote :
    (items : List (ℕ × ℕ)) (words : ℕ → ℕ) (lo hi : ℕ)
    → Covers items lo hi
    → hi ≤ frame_count
    → Wrote 1 lo hi words (or_words items words)
unfolding or_words
or_words-Wrote [] words lo hi c h = record {
  out = words;
  returns = refl;
  bits = λ f. ground arith;
  are_words = λ w. w;
}
or_words-Wrote ((i, mask) ∷ items) words lo hi (n, some_bits, inside, at, is_mask, c) h =
    let rest = or_words-Wrote items (update words i (bit_or (words i) mask)) (lo + n) hi c h in
    record {
      out = rest.out;
      returns = ground (arith, rest.returns, Covers-le items c);
      bits = λ f. ground (arith, rest.bits f, frame_bit-or words lo n f inside, Covers-le items c);
      are_words = λ w. rest.are_words λ j.
          ground
            (arith, w j, w i, bit_or-lt 32 (words i) mask, range_mask-lt (lo % 32) (lo % 32 + n));
    }

and_not_words-Wrote :
    (items : List (ℕ × ℕ)) (words : ℕ → ℕ) (lo hi : ℕ)
    → Covers items lo hi
    → hi ≤ frame_count
    → Wrote 0 lo hi words (and_not_words items words)
unfolding and_not_words
and_not_words-Wrote [] words lo hi c h = record {
  out = words;
  returns = refl;
  bits = λ f. ground arith;
  are_words = λ w. w;
}
and_not_words-Wrote ((i, mask) ∷ items) words lo hi (n, some_bits, inside, at, is_mask, c) h =
    let rest =
      and_not_words-Wrote items (update words i (bit_and (words i) (not32 mask))) (lo + n) hi c h in
    record {
      out = rest.out;
      returns = ground (arith, rest.returns, Covers-le items c);
      bits = λ f.
          ground (arith, rest.bits f, frame_bit-and_not words lo n f inside, Covers-le items c);
      are_words =
          λ w. rest.are_words λ j. ground (arith, w j, w i, bit_and-le (words i) (not32 mask));
    }

-- On a range of frames inside the bitmap `set_free` does not panic, sets the bits of exactly those
-- frames and of no other, and leaves the hint alone; the words stay u32 words.
pub set_free-Wrote :
    (b : FrameBitmap) (start len : ℕ)
    → start + len ≤ frame_count
    → (b' : FrameBitmap) × (set_free b start len ≡ ok b')
      × (b'.search_hint ≡ b.search_hint)
      × ((f : ℕ)
          → frame_bit b'.bitmap f
            ≡ (if within start (start + len) f then 1 else frame_bit b.bitmap f))
      × (AreWords b.bitmap → AreWords b'.bitmap)
unfolding set_free
set_free-Wrote b start len h =
    let items = masks-Covers start len in
    let wrote = or_words-Wrote items.0 b.bitmap start (start + len) items.2 h in
    (
      record b { bitmap = wrote.out },
      rw (items.1, wrote.returns),
      refl,
      wrote.bits,
      wrote.are_words,
    )

-- On a range of frames inside the bitmap `set_occupied` does not panic, clears the bits of exactly
-- those frames and of no other, and leaves the hint alone; the words stay u32 words.
pub set_occupied-Wrote :
    (b : FrameBitmap) (start len : ℕ)
    → start + len ≤ frame_count
    → (b' : FrameBitmap) × (set_occupied b start len ≡ ok b')
      × (b'.search_hint ≡ b.search_hint)
      × ((f : ℕ)
          → frame_bit b'.bitmap f
            ≡ (if within start (start + len) f then 0 else frame_bit b.bitmap f))
      × (AreWords b.bitmap → AreWords b'.bitmap)
unfolding set_occupied
set_occupied-Wrote b start len h =
    let items = masks-Covers start len in
    let wrote = and_not_words-Wrote items.0 b.bitmap start (start + len) items.2 h in
    (
      record b { bitmap = wrote.out },
      rw (items.1, wrote.returns),
      refl,
      wrote.bits,
      wrote.are_words,
    )

or_words_past_end :
    (items : List (ℕ × ℕ)) (words : ℕ → ℕ) (lo hi : ℕ)
    → Covers items lo hi
    → lo ≤ frame_count
    → frame_count < hi
    → or_words items words ≡ panic out_of_bounds
unfolding or_words
or_words_past_end [] words lo hi c p q = absurd (omega arith)
or_words_past_end ((i, mask) ∷ items) words lo hi (n, some_bits, inside, at, is_mask, c) p q =
    elim (lt_or_le i 32768) [
      | inr past ↦ ground arith
      | inl below ↦
          let rest =
            or_words_past_end items (update words i (bit_or (words i) mask)) (lo + n) hi c
              (omega arith) q in
          ground (arith, rest)
    ]

-- `set_free` on a range that begins inside the bitmap or at its end, and reaches past its last frame,
-- panics with the index out of bounds.
set_free_past_end :
    (b : FrameBitmap) (start len : ℕ)
    → start ≤ frame_count
    → frame_count < start + len
    → set_free b start len ≡ panic out_of_bounds
unfolding set_free
set_free_past_end b start len p q =
    let items = masks-Covers start len in
    rw (items.1, or_words_past_end items.0 b.bitmap start (start + len) items.2 p q)
