-- ===== src/Memory/Frame/Alloc/Free.antt =====
-- Release: the double-free check, and allocation and release as inverses.
use zkrnl.Base.{
  ℕ, ◌+◌, ◌*◌, ◌/◌, ◌%◌, ◌≤◌, ◌<◌, min, ◌≡◌, ok, panic, double_free, arith, if◌then◌else◌, inl, inr,
  ◌⊎◌, some, fun_ext,
}
use zkrnl.Word.Bit.{bit_ext}
use zkrnl.Utils.Bits.Mask.{within}
use zkrnl.Memory.Frame.Bitmap.{frame_count, FrameRun, FrameBitmap}
use zkrnl.Memory.Frame.Bitmap.Update.{frame_bit, AreWords, set_free-Wrote}
use zkrnl.Memory.Frame.Bitmap.Any.{NoneFree, SomeFree, any_free_in-AnyFree}
use zkrnl.Memory.Frame.Alloc.{allocate, free}
use zkrnl.Memory.Frame.Alloc.Allocate.{IsValid, allocate-Grants}

-- What the release of a run does: exactly its frames become free, and the hint never rises.
pub record Releases (b : FrameBitmap) (run : FrameRun) (b' : FrameBitmap) : Type 0 where
  pub freed :
      (f : ℕ)
      → frame_bit b'.bitmap f
        ≡ (if within run.start (run.start + run.len) f then 1 else frame_bit b.bitmap f)
  pub hint : b'.search_hint ≡ min b.search_hint (run.start / 32)
  pub valid : IsValid b'

-- On a valid bitmap, releasing a run inside the address space either finds all of its frames occupied
-- and frees exactly those, or finds a frame of it free and panics with the double free.
pub free_lem :
    (b : FrameBitmap) (run : FrameRun)
    → IsValid b
    → run.start + run.len ≤ frame_count
    → (NoneFree b.bitmap run.start (run.start + run.len)
        × ((b' : FrameBitmap) × (free b run ≡ ok b') × Releases b run b'))
      ⊎ (SomeFree b.bitmap run.start (run.start + run.len) × (free b run ≡ panic double_free))
unfolding free
free_lem b run v fits = elim (any_free_in-AnyFree b run.start run.len fits) [
  | inr (e, hit) ↦ inr (hit, rw e)
  | inl (e, clear) ↦
      let (b', set, hint, bits, words) = set_free-Wrote b run.start run.len fits in
      inl (
        clear,
        (
          record b' { search_hint = min b'.search_hint (run.start / 32) },
          rw (e, set),
          record {
            freed = bits;
            hint = rw hint;
            valid = record {
              hint_in_range = omega (arith, v.hint_in_range);
              words = words v.words;
            };
          },
        ),
      )
]

-- A bitmap is determined by the bits of its frames.
pub bitmap_ext :
    (v w : ℕ → ℕ) → AreWords v → AreWords w → ((f : ℕ) → frame_bit v f ≡ frame_bit w f) → v ≡ w
bitmap_ext v w hv hw h = fun_ext λ i. bit_ext 32 (v i) (w i) (hv i) (hw i) λ k p.
    let word : (i * 32 + k) / 32 ≡ i = omega arith in
    let position : (i * 32 + k) % 32 ≡ k = omega arith in rw (word, position) at (h (i * 32 + k))

-- Releasing what `allocate` has just granted gives back the very bitmap from before.
pub free-allocate :
    (b : FrameBitmap) (count : ℕ) {run : FrameRun} {b' : FrameBitmap}
    → IsValid b
    → 0 < count
    → allocate b count ≡ ok (some run, b')
    → (b'' : FrameBitmap) × (free b' run ≡ ok b'') × (b''.bitmap ≡ b.bitmap)
free-allocate b count {run} {b'} v pos e =
    let (grants, len) = allocate-Grants b count v pos e in
    let bounds : run.start + run.len ≤ frame_count = omega (arith, grants.in_range) in
    elim (free_lem b' run grants.valid bounds) [
      | inr ((f, p, q, free), e') ↦ absurd (ground (arith, grants.occupied f))
      | inl (clear, (b'', e', releases)) ↦ (
        b'',
        e',
        bitmap_ext b''.bitmap b.bitmap releases.valid.words v.words
            λ f. ground (arith, releases.freed f, grants.occupied f, grants.was_free f),
      )
    ]
