-- ===== src/Memory/Frame/Alloc/Count.antt =====
-- src/memory/frame.rs: the numbers of free and of held frames.
use zkrnl.Base.{
  ℕ, zero, suc, ◌+◌, ◌-◌, ◌≤◌, ◌<◌, min, ◌≡◌, refl, List, [], ◌∷◌, ok, arith, if◌then◌else◌, inl,
  inr, ◌∙◌,
}
use mathlib.Core.Path.{subst}
use zkrnl.Utils.Bits.Mask.{within}
use zkrnl.Memory.Frame.Bitmap.{frame_count, FrameRun, FrameBitmap}
use zkrnl.Memory.Frame.Bitmap.Update.{frame_bit}
use zkrnl.Memory.Frame.Alloc.{allocate, free}
use zkrnl.Memory.Frame.Alloc.Allocate.{IsValid, Grants, granted, allocate-Grants, allocate_lem}
use zkrnl.Memory.Frame.Alloc.Free.{free_lem}
use zkrnl.Memory.Frame.Alloc.Ownership.{Takes, Step, Reach, Sound, last, Reach-Sound, taken_fits}

-- How many of the first `n` frames are free.
unfoldable pub free_below : (ℕ → ℕ) → ℕ → ℕ
free_below words zero = 0
free_below words (suc n) = frame_bit words n + free_below words n

abbrev pub free_frames : FrameBitmap → ℕ
free_frames b = free_below b.bitmap frame_count

-- How many frames the callers hold.
abbrev pub held_frames : List FrameRun → ℕ
held_frames [] = 0
held_frames (r ∷ rs) = r.len + held_frames rs

held_frames-Takes :
    {r : FrameRun} {rs rs' : List FrameRun}
    → Takes r rs rs'
    → held_frames rs ≡ r.len + held_frames rs'
held_frames-Takes Takes.here = refl
held_frames-Takes (Takes.later t) = omega (arith, held_frames-Takes t)

-- Bits that differ in the range from `lo` to `hi` only, where one has 1 and the other 0.
free_below-range :
    (v w : ℕ → ℕ) (lo hi n : ℕ)
    → lo ≤ hi
    → ((f : ℕ) → lo ≤ f → f < hi → frame_bit v f ≡ 1)
    → ((f : ℕ) → frame_bit w f ≡ (if within lo hi f then 0 else frame_bit v f))
    → free_below w n + (min hi n - min lo n) ≡ free_below v n
unfolding free_below
free_below-range v w lo hi zero h ones bits = omega arith
free_below-range v w lo hi (suc n) h ones bits =
    ground (arith, free_below-range v w lo hi n h ones bits, bits n, ones n)

Step-free_frames :
    {b b' : FrameBitmap} {held held' : List FrameRun}
    → Sound b held
    → Step b held b' held'
    → free_frames b' + held_frames held' ≡ free_frames b + held_frames held
Step-free_frames (v, owns) (Step.granted {b} {b'} {live} {run} count pos e) =
    let (grants, len) = allocate-Grants b count v pos e in
    let moved =
      free_below-range b.bitmap b'.bitmap run.start (run.start + count) frame_count (omega arith)
        grants.was_free grants.occupied in
    omega (arith, moved, grants.in_range)
Step-free_frames (v, owns) (Step.refused {b} {b'} {live} count pos e) =
    elim (allocate_lem b count v pos) [
      | inl (e', absent) ↦ let same : b' ≡ b = ground arith in rw same refl
      | inr (s, d, e', grants) ↦ cc
    ]
Step-free_frames (v, owns) (Step.released {b} {b'} {live} {rest} run t e) =
    let (fits, pos, occupied) = taken_fits b.bitmap t owns in
    elim (free_lem b run v fits) [
      | inr (hit, e') ↦ cc
      | inl (clear, (d, e', releases)) ↦
          let same : d ≡ b' = ground arith in
          let moved =
            free_below-range d.bitmap b.bitmap run.start (last run) frame_count (omega arith)
              (λ f p q. ground (arith, releases.freed f))
              λ f. ground (arith, releases.freed f, clear f) in
          subst (λ k. free_frames k + held_frames rest ≡ free_frames b + held_frames live) same
            (omega (arith, moved, held_frames-Takes t))
    ]

-- Whatever the callers do, starting with no run handed out on a valid bitmap: the frames that are free
-- and those that they hold add up to the frames that were free at the start.
pub Reach-free_frames :
    {b c : FrameBitmap} {held : List FrameRun}
    → IsValid b
    → Reach b [] c held
    → free_frames c + held_frames held ≡ free_frames b
Reach-free_frames v Reach.start = omega arith
Reach-free_frames v (Reach.step r s) = Step-free_frames (Reach-Sound v r) s ∙ Reach-free_frames v r

-- After any such sequence, once a run that a caller holds is released, an allocation of no more frames
-- than it had succeeds.
pub Reach-allocate :
    {b c : FrameBitmap} {held rest : List FrameRun} (run : FrameRun) (count : ℕ)
    → IsValid b
    → Reach b [] c held
    → Takes run held rest
    → 0 < count
    → count ≤ run.len
    → (c' : FrameBitmap) × (free c run ≡ ok c')
      × ((start : ℕ) × (c'' : FrameBitmap) × (allocate c' count ≡ ok (granted start count, c''))
          × Grants c' count start c'')
Reach-allocate {c} run count v r t pos small =
    let (valid, owns) = Reach-Sound v r in
    let (fits, some_frames, occupied) = taken_fits c.bitmap t owns in
    elim (free_lem c run valid fits) [
      | inr ((f, p, q, hit), e) ↦ absurd (omega (arith, occupied f p q))
      | inl (clear, (c', e, releases)) ↦ elim (allocate_lem c' count releases.valid pos) [
        | inr grant ↦ (c', e, grant)
        | inl (refused, absent) ↦
            absurd (
              absent run.start (omega arith) (omega arith)
                λ f p q. ground (arith, releases.freed f))
      ]
    ]
