-- ===== src/Memory/Frame/Alloc/Ownership.antt =====
-- The allocator and its callers over time: who owns which frames after any sequence of calls.
use zkrnl.Base.{
  ℕ, ◌+◌, ◌≤◌, ◌<◌, max, ◌≡◌, List, [], ◌∷◌, ok, arith, if◌then◌else◌, lt_or_le, inl, inr, ◌⊎◌,
  none, some, All,
}
use mathlib.Core.Path.{subst}
use zkrnl.Utils.Bits.Mask.{within}
use zkrnl.Memory.Frame.Bitmap.{frame_count, FrameRun, FrameBitmap}
use zkrnl.Memory.Frame.Bitmap.Update.{frame_bit}
use zkrnl.Memory.Frame.Bitmap.Any.{NoneFree}
use zkrnl.Memory.Frame.Alloc.{allocate, free}
use zkrnl.Memory.Frame.Alloc.Allocate.{IsValid, allocate-Grants, allocate_lem}
use zkrnl.Memory.Frame.Alloc.Free.{free_lem}

-- `Takes r rs rs'`: the run `r` is one of `rs`, and `rs'` are the others. A run is moved into `free`,
-- so a caller can release it once.
pub data Takes : FrameRun → List FrameRun → List FrameRun → Type 0 where
  here : {r : FrameRun} {rs : List FrameRun} → Takes r (r ∷ rs) rs
  later : {r q : FrameRun} {rs rs' : List FrameRun} → Takes r rs rs' → Takes r (q ∷ rs) (q ∷ rs')

-- One call on the allocator: what it does to the bitmap and to the runs that the callers hold. Calls
-- that panic halt the machine, so they are no steps.
pub data Step : FrameBitmap → List FrameRun → FrameBitmap → List FrameRun → Type 0 where
  granted :
      {b b' : FrameBitmap} {live : List FrameRun} {run : FrameRun} (count : ℕ)
      → 0 < count
      → allocate b count ≡ ok (some run, b')
      → Step b live b' (run ∷ live)
  refused :
      {b b' : FrameBitmap} {live : List FrameRun} (count : ℕ)
      → 0 < count
      → allocate b count ≡ ok (none, b')
      → Step b live b' live
  released :
      {b b' : FrameBitmap} {live rest : List FrameRun} (run : FrameRun)
      → Takes run live rest
      → free b run ≡ ok b'
      → Step b live b' rest

pub data Reach (b : FrameBitmap) (live : List FrameRun) : FrameBitmap → List FrameRun → Type 0 where
  start : Reach b live b live
  step :
      {c d : FrameBitmap} {held held' : List FrameRun}
      → Reach b live c held
      → Step c held d held'
      → Reach b live d held'

abbrev pub last : FrameRun → ℕ
last r = r.start + r.len

-- No frame lies in both runs.
abbrev pub Apart : FrameRun → FrameRun → Type 0
Apart r q = (last r ≤ q.start) ⊎ (last q ≤ r.start)

-- The runs lie in the address space, their frames are occupied, and no two runs share a frame.
abbrev pub Owns : (ℕ → ℕ) → List FrameRun → Type 0
Owns words [] = Unit
Owns words (r ∷ rs) =
    (0 < r.len)
    × (last r ≤ frame_count)
    × NoneFree words r.start (last r)
    × All (Apart r) rs
    × Owns words rs

-- Runs stay owned as long as none of their frames becomes free.
Owns-keep :
    (v w : ℕ → ℕ) (rs : List FrameRun)
    → ((f : ℕ) → frame_bit v f ≡ 0 → frame_bit w f ≡ 0)
    → Owns v rs
    → Owns w rs
Owns-keep v w [] keep o = tt
Owns-keep v w (r ∷ rs) keep (pos, fits, occupied, apart, rest) =
    (pos, fits, λ f p q. keep f (occupied f p q), apart, Owns-keep v w rs keep rest)

-- A run of free frames shares none with the owned runs.
Apart-All :
    (words : ℕ → ℕ) (r : FrameRun) (rs : List FrameRun)
    → 0 < r.len
    → ((f : ℕ) → r.start ≤ f → f < last r → frame_bit words f ≡ 1)
    → Owns words rs
    → All (Apart r) rs
Apart-All words r [] pos is_run o = tt
Apart-All words r (q ∷ rs) pos is_run (pos', fits, occupied, apart, rest) = (
  elim (lt_or_le q.start (last r)) [
    | inr before ↦ inl before
    | inl before ↦ elim (lt_or_le r.start (last q)) [
      | inr after ↦ inr after
      | inl after ↦
          let shared : ℕ = max r.start q.start in
          absurd (
            omega (
              arith,
              is_run shared (omega arith) (omega arith),
              occupied shared (omega arith) (omega arith),
            ))
    ]
  ],
  Apart-All words r rs pos is_run rest,
)

pub All-Takes {κ} :
    {r : FrameRun} {rs rs' : List FrameRun} (P : FrameRun → Type κ)
    → Takes r rs rs'
    → All P rs
    → P r × All P rs'
All-Takes P here (p, ps) = (p, ps)
All-Takes P (later t) (p, ps) = let (p', rest) = All-Takes P t ps in (p', (p, rest))

-- The release of a run: its frames become free, and no other frame changes.
module _ (v w : ℕ → ℕ) where
  abbrev Freed : FrameRun → Type 0
  Freed r = (f : ℕ) → frame_bit w f ≡ (if within r.start (last r) f then 1 else frame_bit v f)

  NoneFree-Apart :
      (r q : FrameRun)
      → Freed r
      → Apart r q
      → NoneFree v q.start (last q)
      → NoneFree w q.start (last q)
  NoneFree-Apart r q freed apart occupied f p l = ground (arith, freed f, occupied f p l)

  Owns-Apart :
      (r : FrameRun) (rs : List FrameRun) → Freed r → All (Apart r) rs → Owns v rs → Owns w rs
  Owns-Apart r [] freed away o = tt
  Owns-Apart r (q ∷ rs) freed (away, others) (pos, fits, occupied, apart, rest) =
      (pos, fits, NoneFree-Apart r q freed away occupied, apart, Owns-Apart r rs freed others rest)

  Owns-Takes :
      {r : FrameRun} {rs rs' : List FrameRun} → Takes r rs rs' → Freed r → Owns v rs → Owns w rs'
  Owns-Takes (here {r} {rs}) freed (pos, fits, occupied, apart, rest) =
      Owns-Apart r rs freed apart rest
  Owns-Takes (later {r} {q} t) freed (pos, fits, occupied, apart, rest) =
      let (away, others) = All-Takes (Apart q) t apart in
      let away' : Apart r q = elim away [ inl h ↦ inr h | inr h ↦ inl h ] in
      (pos, fits, NoneFree-Apart r q freed away' occupied, others, Owns-Takes t freed rest)

pub taken_fits :
    (v : ℕ → ℕ) {r : FrameRun} {rs rs' : List FrameRun}
    → Takes r rs rs'
    → Owns v rs
    → (last r ≤ frame_count) × (0 < r.len) × NoneFree v r.start (last r)
taken_fits v here (pos, fits, occupied, apart, rest) = (fits, pos, occupied)
taken_fits v (later t) (pos, fits, occupied, apart, rest) = taken_fits v t rest

-- The allocator is valid and the callers' runs are owned.
abbrev pub Sound : FrameBitmap → List FrameRun → Type 0
Sound b live = IsValid b × Owns b.bitmap live

Step-Sound :
    {b b' : FrameBitmap} {live live' : List FrameRun}
    → Step b live b' live'
    → Sound b live
    → Sound b' live'
Step-Sound (granted {b} {b'} {live} {run} count pos e) (v, o) =
    let (grants, len) = allocate-Grants b count v pos e in
    let is_run =
      λ (f : ℕ) (p : run.start ≤ f) (q : f < last run). grants.was_free f p (omega arith) in
    (
      grants.valid,
      (
        omega arith,
        omega (arith, grants.in_range),
        λ f p q. ground (arith, grants.occupied f),
        Apart-All b.bitmap run live (omega arith) is_run o,
        Owns-keep b.bitmap b'.bitmap live (λ f h. ground (arith, grants.occupied f)) o,
      ),
    )
Step-Sound (refused {b} {b'} {live} count pos e) (v, o) = elim (allocate_lem b count v pos) [
  | inl (e', absent) ↦ let same : b ≡ b' = ground arith in subst (λ c. Sound c live) same (v, o)
  | inr (s, c, e', grants) ↦ cc
]
Step-Sound (released {b} {b'} {live} {rest} run t e) (v, o) =
    let (fits, pos, occupied) = taken_fits b.bitmap t o in
    elim (free_lem b run v fits) [
      | inr (hit, e') ↦ cc
      | inl (clear, (c, e', releases)) ↦
          let same : c ≡ b' = ground arith in
          subst (λ d. Sound d rest) same
            (releases.valid, Owns-Takes b.bitmap c.bitmap t releases.freed o)
    ]

-- Whatever sequence of allocations and releases the callers make, starting with no run handed out on a
-- valid bitmap, the bitmap stays valid, every run that they hold lies in the address space with all of
-- its frames marked occupied, and no frame belongs to two of the runs.
pub Reach-Sound :
    {b c : FrameBitmap} {held : List FrameRun} → IsValid b → Reach b [] c held → Sound c held
Reach-Sound v start = (v, tt)
Reach-Sound v (step r s) = Step-Sound s (Reach-Sound v r)

-- After any such sequence, releasing a run that a caller holds succeeds: it is no double free.
Reach-free :
    {b c : FrameBitmap} {held rest : List FrameRun} (run : FrameRun)
    → IsValid b
    → Reach b [] c held
    → Takes run held rest
    → (c' : FrameBitmap) × (free c run ≡ ok c') × Step c held c' rest
Reach-free {c} run v r t =
    let (valid, o) = Reach-Sound v r in
    let (fits, pos, occupied) = taken_fits c.bitmap t o in
    elim (free_lem c run valid fits) [
      | inl (clear, (c', e, releases)) ↦ (c', e, released run t e)
      | inr ((f, p, q, is_free), e) ↦ absurd (omega (arith, occupied f p q))
    ]
