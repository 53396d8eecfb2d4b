-- ===== src/Multiboot/Walk.antt =====
-- The walk over the memory map ends, and a loop over it is a fold over the regions that it yields.
use zkrnl.Base.{
  ℕ, zero, suc, ◌+◌, ◌-◌, ◌^◌, ◌≤◌, ◌<◌, min, ◌≡◌, refl, List, [], ◌∷◌, ok, panic, overflow, Result,
  arith, if◌then◌else◌, lt_or_le, inl, inr, ap, Bool, true, false, Option-cases, ◌⊎◌, none, some,
  length, >>=-assoc, >>=-cong, drop, ◌>>=◌,
}
use mathlib.Core.Path.{subst, ap₂}
use zkrnl.Multiboot.{
  MemoryMap, MemoryRegion, MmapEntry, entry_bytes, read_entry, region_of, advance, next,
  for_regions, for_regions_from,
}

-- `next` yields these regions one after the other, and then the end of the map, or, if not `clean`, the
-- overflow of `size + 4` at an entry whose size field is too large.
abbrev pub Yields : MemoryMap → List MemoryRegion → Bool → Type 0
Yields m [] clean = next m ≡ (if clean then ok none else panic overflow)
Yields m (r ∷ rs) clean = (m' : MemoryMap) × (next m ≡ ok (some (r, m'))) × Yields m' rs clean

-- The three outcomes of one step: the end, a region with the cursor moved on in the same buffer, and
-- the overflow.
abbrev StepOf : MemoryMap → Type 0
StepOf m =
    (next m ≡ ok none)
    ⊎ ((next m ≡ panic overflow)
        ⊎ ((r : MemoryRegion) × (m' : MemoryMap) × (next m ≡ ok (some (r, m')))
            × (m'.buf ≡ m.buf)
            × (m.offset < m'.offset)
            × (m.offset < length m.buf)))

length-drop-lt : {A : Type 0} (n : ℕ) (xs : List A) → 24 ≤ length (drop n xs) → n < length xs
length-drop-lt zero xs h = omega arith
length-drop-lt (suc n) [] h = absurd (omega arith)
length-drop-lt (suc n) (x ∷ xs) h = omega (arith, length-drop-lt n xs h)

entry_bytes-inside :
    (m : MemoryMap) {bytes : List ℕ} → entry_bytes m ≡ some bytes → m.offset < length m.buf
unfolding entry_bytes
entry_bytes-inside m e = ground (arith, length-drop-lt m.offset m.buf)

advance-eq :
    (m : MemoryMap) (e : MmapEntry)
    → e.size + 4 < 2 ^ 32
    → advance m e ≡ ok (record m { offset = min (m.offset + (e.size + 4)) (2 ^ 32 - 1) })
unfolding advance
advance-eq m e h = ground arith

advance-overflow :
    (m : MemoryMap) (e : MmapEntry) → 2 ^ 32 ≤ e.size + 4 → advance m e ≡ panic overflow
unfolding advance
advance-overflow m e h = ground arith

pub next-end : (m : MemoryMap) → entry_bytes m ≡ none → next m ≡ ok none
unfolding next
next-end m e = rw (e, next)

next-overflow :
    (m : MemoryMap) {bytes : List ℕ}
    → entry_bytes m ≡ some bytes
    → 2 ^ 32 ≤ (read_entry bytes).size + 4
    → next m ≡ panic overflow
unfolding next
next-overflow m {bytes} e large = rw (e, next, advance-overflow m (read_entry bytes) large)

pub next-region :
    (m : MemoryMap) {bytes : List ℕ}
    → entry_bytes m ≡ some bytes
    → (read_entry bytes).size + 4 < 2 ^ 32
    → next m
      ≡ ok (
          some (
            region_of (read_entry bytes),
            record m { offset = min (m.offset + ((read_entry bytes).size + 4)) (2 ^ 32 - 1) },
          ))
unfolding next
next-region m {bytes} e fits = rw (e, next, advance-eq m (read_entry bytes) fits)

next_step : (m : MemoryMap) → length m.buf < 2 ^ 32 → StepOf m
next_step m h = elim (Option-cases (entry_bytes m)) [
  | inl e ↦ inl (next-end m e)
  | inr (bytes, e) ↦ elim (lt_or_le ((read_entry bytes).size + 4) (2 ^ 32)) [
    | inr large ↦ inr (inl (next-overflow m e large))
    | inl fits ↦ inr (
        inr (
          region_of (read_entry bytes),
          record m { offset = min (m.offset + ((read_entry bytes).size + 4)) (2 ^ 32 - 1) },
          next-region m e fits,
          refl,
          omega (arith, entry_bytes-inside m e),
          entry_bytes-inside m e,
        ))
  ]
]

-- The buffer is walked to its end, or to the entry whose size overflows, in less rounds than it has
-- bytes.
walk_from :
    (fuel : ℕ) (m : MemoryMap)
    → length m.buf < 2 ^ 32
    → length m.buf - m.offset ≤ fuel
    → (rs : List MemoryRegion) × (clean : Bool) × (length rs ≤ fuel) × Yields m rs clean
walk_from zero m h enough = elim (next_step m h) [
  | inl e ↦ ([], true, omega arith, e)
  | inr (inl e) ↦ ([], false, omega arith, e)
  | inr (inr (r, m', e, same, later, inside)) ↦ absurd (omega arith)
]
walk_from (suc fuel) m h enough = elim (next_step m h) [
  | inl e ↦ ([], true, omega arith, e)
  | inr (inl e) ↦ ([], false, omega arith, e)
  | inr (inr (r, m', e, same, later, inside)) ↦
      let size : length m'.buf ≡ length m.buf = ap length same in
      let (rs, clean, short, y) = walk_from fuel m' (omega arith) (omega arith) in
      (r ∷ rs, clean, omega arith, (m', e, y))
]

-- The loop over a list, to which the loop over the map is reduced.
abbrev pub each : {S : Type 0} → (S → MemoryRegion → Result S) → List MemoryRegion → S → Result S
each body [] s = ok s
each body (r ∷ rs) s = body s r >>= each body rs

for_regions_from-each :
    {S : Type 0} (body : S → MemoryRegion → Result S) (fuel : ℕ) (m : MemoryMap) (s : S)
    (rs : List MemoryRegion) (clean : Bool)
    → length rs < fuel
    → Yields m rs clean
    → for_regions_from body fuel m s
      ≡ (each body rs s >>= λ s'. if clean then ok s' else panic overflow)
unfolding for_regions_from
for_regions_from-each body zero m s rs clean enough y = absurd (omega arith)
for_regions_from-each body (suc fuel) m s [] true enough y = rw y
for_regions_from-each body (suc fuel) m s [] false enough y = rw y
for_regions_from-each body (suc fuel) m s (r ∷ rs) clean enough (m', e, y) =
    rw (e, >>=-assoc (body s r))
      (>>=-cong (body s r) _ _ λ s'. for_regions_from-each body fuel m' s' rs clean (omega arith) y)

-- Every walk over a map of less than 4 GiB ends: it yields finitely many regions, at most as many as the
-- buffer has bytes, and then the end of the map or the overflow. A loop over the map is then the loop over that
-- list, followed by the overflow if the walk met one; it never runs out of rounds.
pub for_regions-each :
    (m : MemoryMap)
    → length m.buf < 2 ^ 32
    → (rs : List MemoryRegion) × (clean : Bool) × (length rs ≤ length m.buf)
      × Yields m rs clean
      × ((S : Type 0) (body : S → MemoryRegion → Result S) (s : S)
          → for_regions body m s
            ≡ (each body rs s >>= λ s'. if clean then ok s' else panic overflow))
unfolding for_regions
for_regions-each m h =
    let (rs, clean, short, y) = walk_from (length m.buf) m h (omega arith) in
    (
      rs,
      clean,
      short,
      y,
      λ S body s. for_regions_from-each body (suc (length m.buf)) m s rs clean (omega arith) y,
    )

-- Two descriptions of one walk agree.
pub Yields-unique :
    (m : MemoryMap) (rs rs' : List MemoryRegion) (clean clean' : Bool)
    → Yields m rs clean
    → Yields m rs' clean'
    → (rs ≡ rs') × (clean ≡ clean')
Yields-unique m [] [] true true y z = (refl, refl)
Yields-unique m [] [] true false y z = cc
Yields-unique m [] [] false true y z = cc
Yields-unique m [] [] false false y z = (refl, refl)
Yields-unique m [] (r ∷ rs') true clean' y (m', e, z) = ground arith
Yields-unique m [] (r ∷ rs') false clean' y (m', e, z) = ground arith
Yields-unique m (r ∷ rs) [] clean true (m', e, y) z = ground arith
Yields-unique m (r ∷ rs) [] clean false (m', e, y) z = ground arith
Yields-unique m (r ∷ rs) (r' ∷ rs') clean clean' (m', e, y) (m'', e', z) =
    let same_map : m'' ≡ m' = ground arith in
    let same_region : r ≡ r' = ground arith in
    let z' : Yields m' rs' clean' = subst (λ k. Yields k rs' clean') same_map z in
    let rest = Yields-unique m' rs rs' clean clean' y z' in (ap₂ ◌∷◌ same_region rest.0, rest.1)

-- The loop over a map whose regions are known.
pub for_regions-Yields :
    {S : Type 0} (body : S → MemoryRegion → Result S) (m : MemoryMap) (s : S)
    (rs : List MemoryRegion) (clean : Bool)
    → length m.buf < 2 ^ 32
    → Yields m rs clean
    → for_regions body m s ≡ (each body rs s >>= λ s'. if clean then ok s' else panic overflow)
for_regions-Yields {S} body m s rs clean h y =
    let (rs', clean', short, y', loop) = for_regions-each m h in
    let (same, same') = Yields-unique m rs rs' clean clean' y y' in rw (same, same') (loop S body s)
