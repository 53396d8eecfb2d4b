-- ===== src/Memory/Frame/Alloc/Scan.antt =====
-- `is_free` and the search for a run of free frames.
use native.Mathlib.Nat.{one-le-pow, pow-le-pow_right}
use native.Mathlib.Decide.{ℕ_discrete}
use zkrnl.Base.{
  ℕ, zero, suc, ◌+◌, ◌-◌, ◌*◌, ◌/◌, ◌%◌, ◌^◌, ◌≤◌, ◌<◌, ◌≡◌, ◌≢◌, refl, ok, Result, arith, ltb,
  ◌==◌, if◌then◌else◌, lt_or_le, inl, inr, true, ◌⊎◌, Option, none, some,
}
use zkrnl.Word.{shl32}
use zkrnl.Word.Bit.{bit-le-one, bit_and-pow}
use zkrnl.Memory.Frame.Bitmap.{frame_count, FrameBitmap}
use zkrnl.Memory.Frame.Bitmap.Update.{frame_bit}
use zkrnl.Memory.Frame.Alloc.{is_free, scan, scan_for_run, find_free_run}

shl32-one : (k : ℕ) → k < 32 → shl32 1 k ≡ 2 ^ k
shl32-one k h =
    let bound : 2 ^ k ≤ 2 ^ 31 = pow-le-pow_right (omega arith) {j = 31} (omega arith) in
    omega arith

-- The test of `is_free` reads exactly the frame's bit.
is_free-eq :
    (b : FrameBitmap) (f : ℕ) → f < frame_count → is_free b f ≡ ok (frame_bit b.bitmap f == 1)
unfolding is_free
is_free-eq b f h =
    rw (shl32-one (f % 32) (omega arith), bit_and-pow (f % 32) (b.bitmap (f / 32)))
      (elim (lt_or_le (frame_bit b.bitmap f) 1) [
        | inl occupied ↦
            let clear : frame_bit b.bitmap f ≡ 0 = omega arith in rw clear (ground arith)
        | inr set ↦
            let free : frame_bit b.bitmap f ≡ 1 =
              omega (arith, bit-le-one (b.bitmap (f / 32)) (f % 32)) in
            rw free (ground (arith, one-le-pow (f % 32) 2))
      ])

-- `count` frames from `start` on, all free.
abbrev pub IsRun : (ℕ → ℕ) → ℕ → ℕ → Type 0
IsRun words start count = (f : ℕ) → start ≤ f → f < start + count → frame_bit words f ≡ 1

-- No run of `count` free frames starts at or after `lo` and before `hi`.
abbrev pub NoRun : (ℕ → ℕ) → ℕ → ℕ → ℕ → Type 0
NoRun words count lo hi = (t : ℕ) → lo ≤ t → t < hi → ¬ IsRun words t count

-- The search over the frames `lo` to `hi - 1` returns the first run of `count` free frames among them,
-- or `none` if there is none.
abbrev pub FirstRun : (ℕ → ℕ) → ℕ → ℕ → ℕ → Result (Option ℕ) → Type 0
FirstRun words count lo hi result =
    ((result ≡ ok none) × NoRun words count lo (hi + 1 - count))
    ⊎ ((s : ℕ) × (result ≡ ok (some s))
        × (lo ≤ s)
        × (s + count ≤ hi)
        × IsRun words s count
        × NoRun words count lo s)

-- A frame that is not free ends every run that would hold it.
NoRun-before :
    (words : ℕ → ℕ) (count lo frame : ℕ)
    → frame < lo + count
    → frame_bit words frame ≢ 1
    → NoRun words count lo (frame + 1)
NoRun-before words count lo frame h occupied t p q run =
    occupied (run frame (omega arith) (omega arith))

NoRun-join :
    (words : ℕ → ℕ) (count : ℕ) {lo mid hi : ℕ}
    → NoRun words count lo mid
    → NoRun words count mid hi
    → NoRun words count lo hi
NoRun-join words count {mid} left right t p q = elim (lt_or_le t mid) [
  | inl below ↦ left t p below
  | inr above ↦ right t above q
]

FirstRun-later :
    (words : ℕ → ℕ) (count lo mid hi : ℕ) (result : Result (Option ℕ))
    → lo ≤ mid
    → NoRun words count lo mid
    → FirstRun words count mid hi result
    → FirstRun words count lo hi result
FirstRun-later words count lo mid hi result p before found = elim found [
  | inl (e, absent) ↦ inl (e, NoRun-join words count before absent)
  | inr (s, e, q, r, run, first) ↦
      inr (s, e, omega arith, r, run, NoRun-join words count before first)
]

IsRun-extend :
    (words : ℕ → ℕ) (lo len : ℕ)
    → IsRun words lo len
    → frame_bit words (lo + len) ≡ 1
    → IsRun words lo (len + 1)
IsRun-extend words lo len run free f p q = elim (lt_or_le f (lo + len)) [
  | inl below ↦ run f p below
  | inr above ↦ let same : f ≡ lo + len = omega arith in rw same free
]

-- One round of the loop, at a free frame that continues the run from `lo` on.
module _ (b : FrameBitmap) (count left frame run_start run_len lo : ℕ)
    (inside : frame < frame_count) (free : frame_bit b.bitmap frame ≡ 1)
    (start : (if run_len == 0 then frame else run_start) ≡ lo) where
  scan-found : run_len + 1 ≡ count → scan b count (suc left) frame run_start run_len ≡ ok (some lo)
  unfolding scan
  scan-found full = ground (arith, is_free-eq b frame)

  scan-longer :
      run_len + 1 ≢ count
      → scan b count (suc left) frame run_start run_len
        ≡ scan b count left (frame + 1) lo (run_len + 1)
  unfolding scan
  scan-longer more = ground (arith, is_free-eq b frame)

scan-occupied :
    (b : FrameBitmap) (count left frame run_start run_len : ℕ)
    → frame < frame_count
    → frame_bit b.bitmap frame ≢ 1
    → scan b count (suc left) frame run_start run_len ≡ scan b count left (frame + 1) run_start 0
unfolding scan
scan-occupied b count left frame run_start run_len inside occupied =
    ground (arith, is_free-eq b frame)

-- The loop with the current run from `lo` on, of `run_len` frames.
scan-FirstRun :
    (b : FrameBitmap) (count left frame run_start run_len lo hi : ℕ)
    → lo + run_len ≡ frame
    → frame + left ≡ hi
    → hi ≤ frame_count
    → run_len < count
    → (0 < run_len → run_start ≡ lo)
    → IsRun b.bitmap lo run_len
    → FirstRun b.bitmap count lo hi (scan b count left frame run_start run_len)
scan-FirstRun b count zero frame run_start run_len lo hi at ends bound short starts run =
    inl (unfold scan in refl, λ t p q r. omega arith)
scan-FirstRun b count (suc left) frame run_start run_len lo hi at ends bound short starts run =
    elim (ℕ_discrete (frame_bit b.bitmap frame) 1) [
      | yes free ↦
          let start : (if run_len == 0 then frame else run_start) ≡ lo = ground arith in
          let longer = IsRun-extend b.bitmap lo run_len run (rw at free) in
          elim (ℕ_discrete (run_len + 1) count) [
            | yes full ↦
                rw
                  (scan-found b count left frame run_start run_len lo (omega arith) free start full)
                  (inr
                    (lo, refl, omega arith, omega arith, rw full at longer, λ t p q r. omega arith))
            | no more ↦
                rw
                  (scan-longer b count left frame run_start run_len lo (omega arith) free start
                    more)
                  (scan-FirstRun b count left (frame + 1) lo (run_len + 1) lo hi (omega arith)
                    (omega arith) bound (omega arith) (λ _. refl) longer)
          ]
      | no occupied ↦
          rw (scan-occupied b count left frame run_start run_len (omega arith) occupied) (
            FirstRun-later b.bitmap count lo (frame + 1) hi _ (omega arith)
              (NoRun-before b.bitmap count lo frame (omega arith) occupied)
              (scan-FirstRun b count left (frame + 1) run_start 0 (frame + 1) hi (omega arith)
                (omega arith) bound (omega arith) (λ q. absurd (omega arith))
                (λ f p q. absurd (omega arith))))
    ]

-- For a positive count and a start inside the bitmap or at its end, `scan_for_run` does not panic, and
-- returns the start of the first run of `count` free frames at or after `start`, or `none` if there is
-- no such run.
scan_for_run-FirstRun :
    (b : FrameBitmap) (start count : ℕ)
    → 0 < count
    → start ≤ frame_count
    → FirstRun b.bitmap count start frame_count (scan_for_run b start count)
unfolding scan_for_run
scan_for_run-FirstRun b start count p q =
    scan-FirstRun b count (frame_count - start) start 0 0 start frame_count (omega arith)
      (omega arith) (omega arith) p (λ h. absurd (omega arith)) (λ f r t. absurd (omega arith))

-- The search for a run returns the first one at or after the hint if there is one, else the first of
-- the whole bitmap, and `none` only if there is none at all.
abbrev pub NextFit : (ℕ → ℕ) → ℕ → ℕ → Result (Option ℕ) → Type 0
NextFit words count hint result =
    ((result ≡ ok none) × NoRun words count 0 (frame_count + 1 - count))
    ⊎ ((s : ℕ) × (result ≡ ok (some s))
        × (s + count ≤ frame_count)
        × IsRun words s count
        × (((hint ≤ s) × NoRun words count hint s)
            ⊎ (NoRun words count hint (frame_count + 1 - count) × NoRun words count 0 s)))

-- For a positive count and a hint in range, `find_free_run` does not panic, and returns the first run of
-- `count` free frames at or after the hint, or else the first one of all, or `none` if there is none.
pub find_free_run-NextFit :
    (b : FrameBitmap) (count : ℕ)
    → 0 < count
    → b.search_hint ≤ 32768
    → NextFit b.bitmap count (b.search_hint * 32) (find_free_run b count)
unfolding find_free_run
find_free_run-NextFit b count p q =
    let in_range : ltb (b.search_hint * 32) (2 ^ 32) ≡ true = ground arith in
    elim (scan_for_run-FirstRun b (b.search_hint * 32) count p (omega arith)) [
      | inr (s, e, lo, hi, run, first) ↦ rw (in_range, e) (inr (s, refl, hi, run, inl (lo, first)))
      | inl (e, absent) ↦
          rw (in_range, e)
            (elim (scan_for_run-FirstRun b 0 count p (omega arith)) [
              | inl (e', none_at_all) ↦ inl (e', none_at_all)
              | inr (s, e', lo, hi, run, first) ↦ inr (s, e', hi, run, inr (absent, first))
            ])
    ]
