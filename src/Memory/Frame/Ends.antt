-- ===== src/Memory/Frame/Ends.antt =====
-- The frame allocator and its `init` end on every bitmap, valid or not, and on every region.
use zkrnl.Base.{
  ℕ, zero, suc, ◌+◌, ◌-◌, ◌/◌, ◌%◌, ◌^◌, ◌<◌, ◌≢◌, List, [], ◌∷◌, Result, ok, overflow,
  out_of_bounds, assertion, fuel_spent, true, false, some, ltb, leb, length, Halts, Ends, returns,
  panics, >>=-Ends, if-Ends, require-Halts, add_usize-Halts, sub_usize-Halts, mul_usize-Halts, not,
  ◌||◌, by_bool, by_option, ◌==◌, if◌then◌else◌,
}
use zkrnl.Memory.Address.{div_ceil, frame_floor, frame_ceil}
use zkrnl.Memory.Layout.{Layout}
use zkrnl.Memory.Frame.Bitmap.{
  word_count, frame_count, FrameBitmap, new_run, masks, or_words, and_not_words, set_free,
  set_occupied,
}
use zkrnl.Memory.Frame.Bitmap.Covers.{masks-Covers}
use zkrnl.Memory.Frame.Alloc.{is_free, scan, scan_for_run, find_free_run, allocate}
use zkrnl.Memory.Frame.Init.{mark_free, publish, reserve_bytes, init}
use zkrnl.Multiboot.{is_available, MemoryRegion, MemoryMap, for_regions}
use zkrnl.Multiboot.Region.{addressable_bytes-Halts}
use zkrnl.Multiboot.Walk.{each, for_regions-each}
use mathlib.Core.Path.{subst, sym}

out_of_bounds-real : out_of_bounds ≢ fuel_spent
out_of_bounds-real = λ e. cc

assertion-real : assertion ≢ fuel_spent
assertion-real = λ e. cc

masks-Halts : (start len : ℕ) → Halts (masks start len)
masks-Halts start len =
    let (items, e, covers) = masks-Covers start len in subst Halts (sym e) (returns items tt)

or_words-Halts : (items : List (ℕ × ℕ)) (words : ℕ → ℕ) → Halts (or_words items words)
unfolding or_words
or_words-Halts [] words = returns words tt
or_words-Halts ((i, mask) ∷ items) words =
    >>=-Ends (require-Halts (ltb i word_count) out_of_bounds out_of_bounds-real)
      λ _ _. or_words-Halts items _

and_not_words-Halts : (items : List (ℕ × ℕ)) (words : ℕ → ℕ) → Halts (and_not_words items words)
unfolding and_not_words
and_not_words-Halts [] words = returns words tt
and_not_words-Halts ((i, mask) ∷ items) words =
    >>=-Ends (require-Halts (ltb i word_count) out_of_bounds out_of_bounds-real)
      λ _ _. and_not_words-Halts items _

set_free-Halts : (b : FrameBitmap) (start len : ℕ) → Halts (set_free b start len)
unfolding set_free
set_free-Halts b start len =
    >>=-Ends (masks-Halts start len)
      λ items _. >>=-Ends (or_words-Halts items b.bitmap) λ words _. returns _ tt

set_occupied-Halts : (b : FrameBitmap) (start len : ℕ) → Halts (set_occupied b start len)
unfolding set_occupied
set_occupied-Halts b start len =
    >>=-Ends (masks-Halts start len)
      λ items _. >>=-Ends (and_not_words-Halts items b.bitmap) λ words _. returns _ tt

is_free-Halts : (b : FrameBitmap) (frame : ℕ) → Halts (is_free b frame)
unfolding is_free
is_free-Halts b frame =
    >>=-Ends (require-Halts (ltb (frame / 32) word_count) out_of_bounds out_of_bounds-real)
      λ _ _. returns _ tt

scan-Halts :
    (b : FrameBitmap) (count left frame start len : ℕ) → Halts (scan b count left frame start len)
unfolding scan
scan-Halts b count zero frame start len = returns _ tt
scan-Halts b count (suc left) frame start len = >>=-Ends (is_free-Halts b frame) (
    by_bool _
      (λ _.
        by_bool
          (λ c. Halts (elim c [
            | true ↦ ok (some (if len == 0 then frame else start))
            | false ↦ scan b count left (frame + 1) (if len == 0 then frame else start) (len + 1)
          ]))
          (returns _ tt) (scan-Halts b count left _ _ _) (len + 1 == count))
      (λ _. scan-Halts b count left _ _ _))

find_free_run-Halts : (b : FrameBitmap) (count : ℕ) → Halts (find_free_run b count)
unfolding find_free_run scan_for_run
find_free_run-Halts b count = >>=-Ends (mul_usize-Halts b.search_hint 32) λ start _.
    >>=-Ends (scan-Halts b count _ _ _ _)
      (by_option _ (λ _. scan-Halts b count _ _ _ _) (λ frame _. returns _ tt))

new_run-Halts : (start len : ℕ) → Halts (new_run start len)
unfolding new_run
new_run-Halts start len =
    >>=-Ends (require-Halts (ltb start frame_count) assertion assertion-real) λ _ _.
      >>=-Ends (require-Halts (leb len (frame_count - start)) assertion assertion-real)
        λ _ _. returns _ tt

pub allocate-Halts : (b : FrameBitmap) (count : ℕ) → Halts (allocate b count)
unfolding allocate
allocate-Halts b count = if-Ends (ltb frame_count count) (returns _ tt) (
    >>=-Ends (find_free_run-Halts b count) (
      by_option _ (λ _. returns _ tt)
        (λ start _.
          >>=-Ends (set_occupied-Halts b start count)
            λ b' _. >>=-Ends (new_run-Halts start count) λ run _. returns _ tt)))

mark_free-Halts : (b : FrameBitmap) (start count : ℕ) → Halts (mark_free b start count)
unfolding mark_free
mark_free-Halts b start count = >>=-Ends (set_free-Halts b start count) λ b' _. returns _ tt

publish-Halts : (b : FrameBitmap) (r : MemoryRegion) → Halts (publish b r)
unfolding publish
publish-Halts b r = >>=-Ends (addressable_bytes-Halts r) λ bytes _.
    if-Ends (not (is_available r) || bytes % 2 ^ 32 == 0) (returns _ tt) (
      >>=-Ends (add_usize-Halts (r.base % 2 ^ 32) (bytes % 2 ^ 32)) λ limit _.
        if-Ends (limit / 4096 - div_ceil (r.base % 2 ^ 32) 4096 == 0) (returns _ tt)
          (mark_free-Halts b _ _))

reserve_bytes-Halts : (b : FrameBitmap) (addr len : ℕ) → Halts (reserve_bytes b addr len)
unfolding reserve_bytes
reserve_bytes-Halts b addr len = >>=-Ends (add_usize-Halts addr len) λ limit _.
    >>=-Ends (sub_usize-Halts (frame_ceil (limit % 2 ^ 32)) (frame_floor (addr % 2 ^ 32)))
      λ count _. set_occupied-Halts b _ count

-- A loop over any map of less than 4 GiB ends if its body does, and keeps what the body keeps.
pub for_regions-Ends :
    {S : Type 0} (P : S → Type 0) (body : S → MemoryRegion → Result S) (m : MemoryMap) (s : S)
    → length m.buf < 2 ^ 32
    → ((s : S) (r : MemoryRegion) → P s → Ends P (body s r))
    → P s
    → Ends P (for_regions body m s)
for_regions-Ends {S} P body m s short step start =
    let (rs, clean, few, yields, loop) = for_regions-each m short in
    subst (Ends P) (sym (loop S body s))
      (>>=-Ends (all rs s start) λ s' p. if-Ends clean (returns s' p) (panics overflow λ e. cc))
  where
    all : (rs : List MemoryRegion) (s : S) → P s → Ends P (each body rs s)
    all [] s p = returns s p
    all (r ∷ rs) s p = >>=-Ends (step s r p) λ s' p'. all rs s' p'

pub init-Halts :
    (l : Layout) (m : MemoryMap) (b : FrameBitmap) → length m.buf < 2 ^ 32 → Halts (init l m b)
unfolding init
init-Halts l m b short =
    >>=-Ends (for_regions-Ends _ publish m b short (λ s r _. publish-Halts s r) tt) λ published _.
      >>=-Ends (reserve_bytes-Halts published 0 4096) λ low _.
        >>=-Ends (sub_usize-Halts l.kernel_phys_end_addr l.kernel_phys_start_addr)
          λ len _. reserve_bytes-Halts low _ len
