-- ===== src/Memory/Frame/Alloc/Books.antt =====
-- The books of the allocator: after any calls, a frame is free, in a run that a caller holds, or was never
-- free at all.
use zkrnl.Base.{
  ℕ, ◌≡◌, refl, List, [], ◌∷◌, arith, if◌then◌else◌, inl, inr, Bool, true, false, ◌||◌, All,
}
use mathlib.Core.Path.{subst}
use zkrnl.Utils.Bits.Mask.{within}
use zkrnl.Memory.Frame.Bitmap.{FrameRun, FrameBitmap}
use zkrnl.Memory.Frame.Bitmap.Update.{frame_bit}
use zkrnl.Memory.Frame.Alloc.Allocate.{IsValid, allocate-Grants, allocate_lem}
use zkrnl.Memory.Frame.Alloc.Free.{free_lem}
use zkrnl.Memory.Frame.Alloc.Ownership.{
  Takes, Step, Reach, Sound, Owns, Apart, last, Reach-Sound, taken_fits, All-Takes,
}

-- Whether a frame lies in one of the runs.
abbrev pub in_any : List FrameRun → ℕ → Bool
in_any [] f = false
in_any (r ∷ rs) f = within r.start (last r) f || in_any rs f

in_any-Takes :
    {r : FrameRun} {rs rs' : List FrameRun} (f : ℕ)
    → Takes r rs rs'
    → in_any rs f ≡ (within r.start (last r) f || in_any rs' f)
in_any-Takes f Takes.here = refl
in_any-Takes f (Takes.later t) = ground (arith, in_any-Takes f t)

in_any-Apart :
    (r : FrameRun) (rs : List FrameRun) (f : ℕ)
    → All (Apart r) rs
    → within r.start (last r) f ≡ true
    → in_any rs f ≡ false
in_any-Apart r [] f apart inside = refl
in_any-Apart r (q ∷ rs) f (apart, rest) inside = ground (arith, in_any-Apart r rs f rest inside)

-- A taken run shares no frame with the others.
taken-Apart :
    (words : ℕ → ℕ) {r : FrameRun} {rs rs' : List FrameRun}
    → Takes r rs rs'
    → Owns words rs
    → All (Apart r) rs'
taken-Apart words Takes.here (pos, fits, occupied, apart, rest) = apart
taken-Apart words (Takes.later {r} {q} t) (pos, fits, occupied, apart, rest) =
    let (away, others) = All-Takes (Apart q) t apart in
    let away' : Apart r q = elim away [ inl h ↦ inr h | inr h ↦ inl h ] in
    (away', taken-Apart words t rest)

-- One frame in the books: a held one was free at the start and is not free now, and any other one is as it
-- was.
abbrev pub Books : FrameBitmap → FrameBitmap → List FrameRun → ℕ → Type 0
Books b c held f =
    (in_any held f ≡ true → frame_bit b.bitmap f ≡ 1)
    × (frame_bit c.bitmap f ≡ (if in_any held f then 0 else frame_bit b.bitmap f))

Step-Books :
    (b : FrameBitmap) {c c' : FrameBitmap} {held held' : List FrameRun} (f : ℕ)
    → Sound c held
    → Step c held c' held'
    → Books b c held f
    → Books b c' held' f
Step-Books b f (v, owns) (Step.granted {b = c} {b' = c'} {live = held} {run = run} count pos e)
      (was, now) =
    let (grants, len) = allocate-Grants c count v pos e in
    let bits = grants.occupied f in
    let free_before = grants.was_free f in (λ inside. ground (arith, bits), ground (arith, bits))
Step-Books b f (v, owns) (Step.refused {b = c} {b' = c'} {live = held} count pos e) books =
    elim (allocate_lem c count v pos) [
      | inl (e', absent) ↦
          let same : c ≡ c' = ground arith in subst (λ d. Books b d held f) same books
      | inr (s, d, e', grants) ↦ cc
    ]
Step-Books b f (v, owns) (Step.released {b = c} {b' = c'} {live = held} {rest = rest} run t e)
      (was, now) =
    let (fits, pos, occupied) = taken_fits c.bitmap t owns in
    elim (free_lem c run v fits) [
      | inr (hit, e') ↦ cc
      | inl (clear, (d, e', releases)) ↦
          let same : d ≡ c' = ground arith in
          let split = in_any-Takes f t in
          let apart = in_any-Apart run rest f (taken-Apart c.bitmap t owns) in
          subst (λ d. Books b d rest f) same
            (λ inside. ground (arith, split), ground (arith, split, apart, releases.freed f))
    ]

-- Whatever the callers do, starting with no run handed out on a valid bitmap: every frame of a run that
-- they hold was free at the start and is not free now, and every other frame is free exactly if it was.
pub Reach-Books :
    {b c : FrameBitmap} {held : List FrameRun}
    → IsValid b
    → Reach b [] c held
    → (f : ℕ) → Books b c held f
Reach-Books v Reach.start f = (λ h. ground arith, refl)
Reach-Books {b} v (Reach.step r s) f = Step-Books b f (Reach-Sound v r) s (Reach-Books v r f)
