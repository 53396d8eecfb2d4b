-- ===== src/Memory/Frame/Alloc/Order.antt =====
-- The order of two releases.
use zkrnl.Base.{ℕ, ◌/◌, ◌≤◌, min, ◌≡◌, ok, arith, if◌then◌else◌, inl, inr, ◌∙◌, ap, ◌>>=◌}
use mathlib.Core.Path.{ap₂}
use zkrnl.Utils.Bits.Mask.{within}
use zkrnl.Memory.Frame.Bitmap.{frame_count, FrameRun, FrameBitmap}
use zkrnl.Memory.Frame.Bitmap.Update.{frame_bit}
use zkrnl.Memory.Frame.Bitmap.Any.{NoneFree}
use zkrnl.Memory.Frame.Alloc.{free}
use zkrnl.Memory.Frame.Alloc.Allocate.{IsValid}
use zkrnl.Memory.Frame.Alloc.Free.{Releases, free_lem, bitmap_ext}
use zkrnl.Memory.Frame.Alloc.Ownership.{Apart, last}

-- The release of a run whose frames are occupied.
free-Releases :
    (b : FrameBitmap) (r : FrameRun)
    → IsValid b
    → last r ≤ frame_count
    → NoneFree b.bitmap r.start (last r)
    → (c : FrameBitmap) × (free b r ≡ ok c) × Releases b r c
free-Releases b r v fits occupied = elim (free_lem b r v fits) [
  | inl (clear, result) ↦ result
  | inr ((f, p, q, hit), e) ↦ absurd (omega (arith, occupied f p q))
]

-- Two runs one after the other: the run that is released first leaves the other one occupied.
free-free :
    (b : FrameBitmap) (r q : FrameRun)
    → IsValid b
    → last r ≤ frame_count
    → last q ≤ frame_count
    → NoneFree b.bitmap r.start (last r)
    → NoneFree b.bitmap q.start (last q)
    → Apart r q
    → (d : FrameBitmap) × ((free b r >>= λ c. free c q) ≡ ok d)
      × IsValid d
      × (d.search_hint ≡ min (min b.search_hint (r.start / 32)) (q.start / 32))
      × ((f : ℕ)
          → frame_bit d.bitmap f ≡ (
              if within q.start (last q) f
              then 1
              else if within r.start (last r) f
              then 1
              else frame_bit b.bitmap f))
free-free b r q v fits fits' occupied occupied' apart =
    let (c, e, one) = free-Releases b r v fits occupied in
    let still : NoneFree c.bitmap q.start (last q) =
      λ f p l. ground (arith, one.freed f, occupied' f p l) in
    let (d, e', two) = free-Releases c q one.valid fits' still in
    (
      d,
      rw (e, e'),
      two.valid,
      omega (arith, one.hint, two.hint),
      λ f. ground (arith, one.freed f, two.freed f),
    )

FrameBitmap-ext :
    (c d : FrameBitmap)
    → IsValid c
    → IsValid d
    → c.search_hint ≡ d.search_hint
    → ((f : ℕ) → frame_bit c.bitmap f ≡ frame_bit d.bitmap f)
    → c ≡ d
FrameBitmap-ext c d v w hint bits =
    ap₂ (λ words h. record { bitmap = words; search_hint = h })
      (bitmap_ext c.bitmap d.bitmap v.words w.words bits) hint

-- On a valid bitmap, two runs in range that share no frame and whose frames are all occupied can be
-- released in either order, and the two orders give the same bitmap with the same search hint.
pub free_comm :
    (b : FrameBitmap) (r q : FrameRun)
    → IsValid b
    → last r ≤ frame_count
    → last q ≤ frame_count
    → NoneFree b.bitmap r.start (last r)
    → NoneFree b.bitmap q.start (last q)
    → Apart r q
    → (d : FrameBitmap) × ((free b r >>= λ c. free c q) ≡ ok d)
      × ((free b q >>= λ c. free c r) ≡ ok d)
free_comm b r q v fits fits' occupied occupied' apart =
    let apart' : Apart q r = elim apart [ inl h ↦ inr h | inr h ↦ inl h ] in
    let (d, e, valid, hint, bits) = free-free b r q v fits fits' occupied occupied' apart in
    let (d', e', valid', hint', bits') = free-free b q r v fits' fits occupied' occupied apart' in
    let same : d' ≡ d =
      FrameBitmap-ext d' d valid' valid (omega arith) λ f. ground (arith, bits f, bits' f) in
    (d, e, e' ∙ ap ok same)
