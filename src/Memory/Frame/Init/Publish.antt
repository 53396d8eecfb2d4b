-- ===== src/Memory/Frame/Init/Publish.antt =====
-- The loop body of `init`: which frames a region of the memory map publishes.
use zkrnl.Base.{
  ℕ, ◌+◌, ◌-◌, ◌*◌, ◌/◌, ◌%◌, ◌^◌, ◌≤◌, ◌<◌, min, ◌≡◌, refl, List, [], ◌∷◌, ok, panic, overflow,
  arith, leb, ◌==◌, if◌then◌else◌, lt_or_le, inl, inr, ◌∙◌, Bool, true, false, Bool-cases, ◌⊎◌,
  ◌&&◌, ◌||◌, All,
}
use zkrnl.Utils.Bits.Mask.{within}
use zkrnl.Multiboot.{MemoryRegion, is_available}
use zkrnl.Multiboot.Region.{addressable_bytes-eq}
use zkrnl.Multiboot.Walk.{each}
use zkrnl.Memory.Address.{div_ceil}
use zkrnl.Memory.Frame.Bitmap.{frame_count, FrameBitmap}
use zkrnl.Memory.Frame.Bitmap.Update.{frame_bit, set_free-Wrote}
use zkrnl.Memory.Frame.Alloc.Allocate.{IsValid}
use zkrnl.Memory.Frame.Init.{mark_free, publish}

-- A frame of available memory: all of its bytes lie in the region.
abbrev pub usable : MemoryRegion → ℕ → Bool
usable r f = is_available r && (leb r.base (f * 4096) && leb ((f + 1) * 4096) (r.base + r.len))

abbrev pub usable_in : List MemoryRegion → ℕ → Bool
usable_in [] f = false
usable_in (r ∷ rs) f = usable_in rs f || usable r f

-- The region ends below the 4 GiB limit, or begins at it or above.
abbrev pub IsClear : MemoryRegion → Type 0
IsClear r = (r.base + r.len < 2 ^ 32) ⊎ (2 ^ 32 ≤ r.base)

-- Exactly the frames with `p` become free; the allocator stays valid and the hint does not rise.
pub record Publishes (p : ℕ → Bool) (b b' : FrameBitmap) : Type 0 where
  pub bits :
      (f : ℕ) → f < frame_count → frame_bit b'.bitmap f ≡ (if p f then 1 else frame_bit b.bitmap f)
  pub hint : b'.search_hint ≤ b.search_hint
  pub valid : IsValid b'

mark_free_lem :
    (b : FrameBitmap) (start count : ℕ)
    → IsValid b
    → start + count ≤ frame_count
    → (b' : FrameBitmap) × (mark_free b start count ≡ ok b')
      × Publishes (within start (start + count)) b b'
unfolding mark_free
mark_free_lem b start count v h =
    let (b', set, hint, bits, words) = set_free-Wrote b start count h in
    (
      record b' { search_hint = min b'.search_hint (start / 32) },
      rw set,
      record {
        bits = λ f p. bits f;
        hint = omega arith;
        valid = record { hint_in_range = omega (arith, v.hint_in_range); words = words v.words };
      },
    )

Publishes-none :
    {b : FrameBitmap} (r : MemoryRegion)
    → IsValid b
    → ((f : ℕ) → f < frame_count → usable r f ≡ false)
    → Publishes (usable r) b b
Publishes-none r v h = record { bits = λ f p. ground (arith, h f p); hint = omega arith; valid = v }

publish-none :
    (b : FrameBitmap) (r : MemoryRegion)
    → (is_available r ≡ false) ⊎ (2 ^ 32 ≤ r.base)
    → publish b r ≡ ok b
unfolding publish
publish-none b r h = rw (addressable_bytes-eq r) (ground arith)

module _ (r : MemoryRegion) where
  abbrev start : ℕ
  start = div_ceil r.base 4096

  abbrev count : ℕ
  count = (r.base + r.len) / 4096 - start

count_of_empty : (r : MemoryRegion) → r.len ≡ 0 → count r ≡ 0
unfolding div_ceil
count_of_empty r e = ground arith

publish-some :
    (b : FrameBitmap) (r : MemoryRegion)
    → is_available r ≡ true
    → r.base + r.len < 2 ^ 32
    → publish b r ≡ (if count r == 0 then ok b else mark_free b (start r) (count r))
unfolding publish
publish-some b r ram clear =
    let bytes : (min (r.base + r.len) (2 ^ 32) - r.base) % 2 ^ 32 ≡ r.len = omega arith in
    let base : r.base % 2 ^ 32 ≡ r.base = omega arith in
    rw (addressable_bytes-eq r, ram, bytes, base) (ground (arith, count_of_empty r))

-- A region clear of the 4 GiB limit publishes exactly its whole frames, without a panic.
publish-Publishes :
    (b : FrameBitmap) (r : MemoryRegion)
    → IsValid b
    → IsClear r
    → (b' : FrameBitmap) × (publish b r ≡ ok b') × Publishes (usable r) b b'
unfolding div_ceil
publish-Publishes b r v clear = elim (Bool-cases (is_available r)) [
  | inr other ↦ (b, publish-none b r (inl other), Publishes-none r v (λ f p. ground arith))
  | inl ram ↦ elim clear [
    | inr above ↦ (b, publish-none b r (inr above), Publishes-none r v (λ f p. ground arith))
    | inl below ↦ elim (lt_or_le 0 (count r)) [
      | inr empty ↦
          (b, publish-some b r ram below ∙ ground arith, Publishes-none r v (λ f p. ground arith))
      | inl more ↦
          let (b', e, published) = mark_free_lem b (start r) (count r) v (omega arith) in
          (
            b',
            publish-some b r ram below ∙ ground arith,
            record {
              bits = λ f p. published.bits f p ∙ ground arith;
              hint = published.hint;
              valid = published.valid;
            },
          )
    ]
  ]
]

Publishes-trans :
    {b b' b'' : FrameBitmap} (p q : ℕ → Bool)
    → Publishes p b b'
    → Publishes q b' b''
    → Publishes (λ f. q f || p f) b b''
Publishes-trans p q first second = record {
  bits = λ f h. ground (arith, first.bits f h, second.bits f h);
  hint = omega (arith, first.hint, second.hint);
  valid = second.valid;
}

-- The whole loop: the frames that lie in some available region become free.
pub each-publish :
    (b : FrameBitmap) (rs : List MemoryRegion)
    → IsValid b
    → All IsClear rs
    → (b' : FrameBitmap) × (each publish rs b ≡ ok b') × Publishes (usable_in rs) b b'
each-publish b [] v clear = (b, refl, record { bits = λ f p. refl; hint = omega arith; valid = v })
each-publish b (r ∷ rs) v clear =
    let (b', e, first) = publish-Publishes b r v clear.0 in
    let (b'', e', rest) = each-publish b' rs first.valid clear.1 in
    (b'', rw e e', Publishes-trans (usable r) (usable_in rs) first rest)

-- An available region that begins below 4 GiB, but not at 0, and reaches 4 GiB or more panics: the sum
-- of its base and its clamped length no longer fits a usize.
pub publish-overflow :
    (b : FrameBitmap) (r : MemoryRegion)
    → is_available r ≡ true
    → 0 < r.base
    → r.base < 2 ^ 32
    → 2 ^ 32 ≤ r.base + r.len
    → publish b r ≡ panic overflow
unfolding publish
publish-overflow b r ram pos below reaches =
    let bytes : (min (r.base + r.len) (2 ^ 32) - r.base) % 2 ^ 32 ≡ 2 ^ 32 - r.base = omega arith in
    let base : r.base % 2 ^ 32 ≡ r.base = omega arith in
    rw (addressable_bytes-eq r, ram, bytes, base) (ground arith)

-- An available region from 0 to 4 GiB or more publishes nothing: its clamped length is cut to 0, and the
-- allocator stays as it is.
pub publish-from_zero :
    (b : FrameBitmap) (r : MemoryRegion)
    → is_available r ≡ true
    → r.base ≡ 0
    → 2 ^ 32 ≤ r.len
    → publish b r ≡ ok b
unfolding publish
publish-from_zero b r ram at_zero large = rw (addressable_bytes-eq r) (ground arith)
