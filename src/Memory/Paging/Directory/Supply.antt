-- ===== src/Memory/Paging/Directory/Supply.antt =====
-- The frames that the builder allocates lie in the identity-mapped 4 MiB.
use zkrnl.Base.{
  ℕ, zero, suc, ◌+◌, ◌*◌, ◌≤◌, ◌<◌, ◌≡◌, ok, arith, ◌==◌, if◌then◌else◌, lt_or_le, inl, inr, ◌∙◌,
}
use zkrnl.Memory.Frame.Bitmap.{frame_count, FrameBitmap}
use zkrnl.Memory.Frame.Bitmap.Update.{frame_bit}
use zkrnl.Memory.Frame.Alloc.{allocate_one}
use zkrnl.Memory.Frame.Alloc.Allocate.{IsValid, Grants, allocate_lem}
use zkrnl.Memory.Frame.Alloc.Scan.{IsRun}
use zkrnl.Memory.Paging.Directory.{alloc_frame}

-- At least `n` frames at or after `lo` and below 4 MiB are free.
abbrev pub Supply : (ℕ → ℕ) → ℕ → ℕ → Type 0
Supply words lo zero = Unit
Supply words lo (suc n) =
    (f : ℕ) × (lo ≤ f) × (f < 1024) × (frame_bit words f ≡ 1) × Supply words (f + 1) n

-- A supply of frames that the search reaches from its hint on.
abbrev pub HasFrames : FrameBitmap → ℕ → Type 0
HasFrames b n = IsValid b × Supply b.bitmap (b.search_hint * 32) n

Supply-keep :
    (v w : ℕ → ℕ) (n lo lo' : ℕ)
    → lo' ≤ lo
    → ((f : ℕ) → lo ≤ f → frame_bit v f ≡ 1 → frame_bit w f ≡ 1)
    → Supply v lo n
    → Supply w lo' n
Supply-keep v w zero lo lo' h keep s = tt
Supply-keep v w (suc n) lo lo' h keep (f, p, q, free, rest) = (
  f,
  omega arith,
  q,
  keep f p free,
  Supply-keep v w n (f + 1) (f + 1) (omega arith) (λ g l. keep g (omega arith)) rest,
)

-- What one allocation of the builder gives.
pub record Fresh (b : FrameBitmap) (n frame : ℕ) (b' : FrameBitmap) : Type 0 where
  pub low : frame < 1024
  pub was_free : frame_bit b.bitmap frame ≡ 1
  pub bits : (f : ℕ) → frame_bit b'.bitmap f ≡ (if f == frame then 0 else frame_bit b.bitmap f)
  pub more : HasFrames b' n

-- The search from the hint on does not pass over a free frame.
first_free :
    (b : FrameBitmap) (f start : ℕ) {b' : FrameBitmap}
    → IsRun b.bitmap f 1
    → b.search_hint * 32 ≤ f
    → f < frame_count
    → Grants b 1 start b'
    → start ≤ f
first_free b f start run p q grants = elim (lt_or_le f start) [
  | inr le ↦ le
  | inl below ↦ absurd (elim grants.next_fit [
    | inl (h, first) ↦ first f p below run
    | inr (none_later, first) ↦ none_later f p (omega arith) run
  ])
]

-- As long as there is a frame in supply, the allocation succeeds with a free frame below 4 MiB, marks
-- exactly that frame occupied, and leaves one frame less in supply.
pub alloc_frame-Fresh :
    (b : FrameBitmap) (n : ℕ)
    → HasFrames b (suc n)
    → (frame : ℕ) × (b' : FrameBitmap) × (alloc_frame b ≡ ok (frame, b')) × Fresh b n frame b'
unfolding alloc_frame allocate_one
alloc_frame-Fresh b n (v, (f, p, q, free, rest)) =
    let run : IsRun b.bitmap f 1 = λ g l h. let same : g ≡ f = omega arith in rw same free in
    elim (allocate_lem b 1 v (omega arith)) [
      | inl (e, absent) ↦ absurd (absent f (omega arith) (omega arith) run)
      | inr (start, b', e, grants) ↦
          let le = first_free b f start run p (omega arith) grants in
          let bits : (g : ℕ)
              → frame_bit b'.bitmap g ≡ (if g == start then 0 else frame_bit b.bitmap g) =
            λ g. grants.occupied g ∙ ground arith in
          let keep : (g : ℕ) → f + 1 ≤ g → frame_bit b.bitmap g ≡ 1 → frame_bit b'.bitmap g ≡ 1 =
            λ g l h. ground (arith, bits g) in
          (
            start,
            b',
            rw e,
            record {
              low = omega arith;
              was_free = grants.was_free start (omega arith) (omega arith);
              bits = bits;
              more = (
                grants.valid,
                Supply-keep b.bitmap b'.bitmap n (f + 1) (b'.search_hint * 32)
                    (omega (arith, grants.hint)) keep rest,
              );
            },
          )
    ]
