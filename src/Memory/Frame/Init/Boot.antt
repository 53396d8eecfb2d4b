-- ===== src/Memory/Frame/Init/Boot.antt =====
-- The first picture of physical memory: what `init` leaves free.
use zkrnl.Base.{
  ℕ, ◌+◌, ◌-◌, ◌*◌, ◌%◌, ◌^◌, ◌≤◌, ◌<◌, ◌≡◌, refl, List, [], ◌∷◌, ok, panic, overflow, Result,
  arith, ltb, ◌==◌, if◌then◌else◌, sym, ◌∙◌, Bool, true, false, ◌&&◌, ◌||◌, length, >>=-assoc,
  >>=-cong, All, ◌>>=◌, sub_usize, lt→ltb, le→ltb_false, ◌++◌,
}
use mathlib.Core.Path.{subst}
use zkrnl.Utils.Bits.Mask.{within}
use zkrnl.Multiboot.{MemoryRegion, MemoryMap, is_available}
use zkrnl.Multiboot.Walk.{each, Yields, for_regions-Yields}
use zkrnl.Memory.Address.{frame_floor, frame_ceil}
use zkrnl.Memory.Layout.{Layout, IsLinked}
use zkrnl.Memory.Frame.Bitmap.{frame_count, FrameBitmap, set_occupied}
use zkrnl.Memory.Frame.Bitmap.Update.{frame_bit, set_occupied-Wrote}
use zkrnl.Memory.Frame.Alloc.Allocate.{IsValid}
use zkrnl.Memory.Frame.Init.{publish, reserve_bytes, init}
use zkrnl.Memory.Frame.Init.Publish.{IsClear, usable_in, each-publish, publish-overflow}

-- A frame with a byte in `[lo, hi)`.
abbrev pub touches : ℕ → ℕ → ℕ → Bool
touches lo hi f = ltb (f * 4096) hi && ltb lo ((f + 1) * 4096)

rounding :
    (addr len : ℕ)
    → addr + len < 2 ^ 32
    → (frame_floor addr ≤ frame_ceil (addr + len)) × (frame_ceil (addr + len) ≤ frame_count)
unfolding frame_floor frame_ceil
rounding addr len h = ground arith

reserve_bytes-eq :
    (b : FrameBitmap) (addr len : ℕ)
    → addr + len < 2 ^ 32
    → reserve_bytes b addr len
      ≡ set_occupied b (frame_floor addr) (frame_ceil (addr + len) - frame_floor addr)
unfolding reserve_bytes
reserve_bytes-eq b addr len h =
    let whole : (addr + len) % 2 ^ 32 ≡ addr + len = omega arith in
    let low : addr % 2 ^ 32 ≡ addr = omega arith in
    let ordered : ltb (frame_ceil (addr + len)) (frame_floor addr) ≡ false =
      le→ltb_false _ _ (rounding addr len h).0 in
    rw (lt→ltb (addr + len) (2 ^ 32) h, whole, low, ordered)

within_frames :
    (addr len f : ℕ)
    → 0 < len
    → addr + len < 2 ^ 32
    → within (frame_floor addr) (frame_floor addr + (frame_ceil (addr + len) - frame_floor addr)) f
      ≡ touches addr (addr + len) f
unfolding frame_floor frame_ceil
within_frames addr len f p h = ground arith

-- On a valid allocator and a byte range that is not empty and ends below 4 GiB, `reserve_bytes` does not
-- panic: every frame that the range touches becomes occupied, no other frame changes, the hint stays
-- and the allocator is still valid.
reserve_bytes_lem :
    (b : FrameBitmap) (addr len : ℕ)
    → IsValid b
    → 0 < len
    → addr + len < 2 ^ 32
    → (b' : FrameBitmap) × (reserve_bytes b addr len ≡ ok b')
      × (b'.search_hint ≡ b.search_hint)
      × IsValid b'
      × ((f : ℕ)
          → frame_bit b'.bitmap f
            ≡ (if touches addr (addr + len) f then 0 else frame_bit b.bitmap f))
reserve_bytes_lem b addr len v pos h =
    let (ordered, bound) = rounding addr len h in
    let (b', set, hint, bits, words) =
      set_occupied-Wrote b (frame_floor addr) (frame_ceil (addr + len) - frame_floor addr)
        (omega arith) in
    (
      b',
      reserve_bytes-eq b addr len h ∙ set,
      hint,
      record { hint_in_range = omega (arith, v.hint_in_range); words = words v.words },
      λ f. rw (← within_frames addr len f pos h) (bits f),
    )

-- The frames that the kernel keeps: the first one, and those with a byte of the image.
abbrev pub kept : Layout → ℕ → Bool
kept l f = touches l.kernel_phys_start_addr l.kernel_phys_end_addr f || f == 0

final_bit :
    (image usable_frame : Bool) (f x₀ x₁ x₂ x₃ : ℕ)
    → x₁ ≡ (if usable_frame then 1 else x₀)
    → x₂ ≡ (if touches 0 4096 f then 0 else x₁)
    → x₃ ≡ (if image then 0 else x₂)
    → x₃ ≡ (if image || f == 0 then 0 else if usable_frame then 1 else x₀)
final_bit image usable_frame f x₀ x₁ x₂ x₃ e₁ e₂ e₃ = ground arith

-- After `init` on a memory map whose regions stay clear of the 4 GiB limit, and a linked kernel, a
-- frame is free exactly if it was free before or lies wholly in an available region, and it is neither
-- the first frame nor touched by the kernel image. `init` does not panic, keeps the allocator valid and
-- does not raise the hint.
pub init-usable_in :
    (l : Layout) (m : MemoryMap) (b : FrameBitmap) (rs : List MemoryRegion)
    → IsLinked l
    → length m.buf < 2 ^ 32
    → Yields m rs true
    → All IsClear rs
    → IsValid b
    → (b' : FrameBitmap) × (init l m b ≡ ok b')
      × IsValid b'
      × (b'.search_hint ≤ b.search_hint)
      × ((f : ℕ)
          → f < frame_count
          → frame_bit b'.bitmap f
            ≡ (if kept l f then 0 else if usable_in rs f then 1 else frame_bit b.bitmap f))
unfolding init
init-usable_in l m b rs linked short yields clear v =
    let start : ℕ = l.kernel_phys_start_addr in
    let len : ℕ = l.kernel_phys_end_addr - l.kernel_phys_start_addr in
    let (b₁, published, open_frames) = each-publish b rs v clear in
    let (b₂, low, hint₂, v₂, bits₂) =
      reserve_bytes_lem b₁ 0 4096 open_frames.valid (omega arith) (omega arith) in
    let (b₃, image, hint₃, v₃, bits₃) =
      reserve_bytes_lem b₂ start len v₂ (omega arith) (omega arith) in
    let size : sub_usize l.kernel_phys_end_addr start ≡ ok len = ground arith in
    let last : start + len ≡ l.kernel_phys_end_addr = omega arith in
    (
      b₃,
      rw (for_regions-Yields publish m b rs true short yields, published, low, size, image),
      v₃,
      omega (arith, open_frames.hint),
      λ f p.
          final_bit (touches start l.kernel_phys_end_addr f) (usable_in rs f) f _ _ _ _
            (open_frames.bits f p) (bits₂ f)
            (subst
              (λ k.
                frame_bit b₃.bitmap f ≡ (if touches start k f then 0 else frame_bit b₂.bitmap f))
              last (bits₃ f)),
    )

each-append :
    {S : Type 0} (body : S → MemoryRegion → Result S) (rs rs' : List MemoryRegion) (s : S)
    → each body (rs ++ rs') s ≡ (each body rs s >>= each body rs')
each-append body [] rs' s = refl
each-append body (r ∷ rs) rs' s =
    >>=-cong (body s r) _ _ (each-append body rs rs') ∙ sym (>>=-assoc (body s r) _ _)

-- `init` panics with the overflow on a map that has an available region which begins above address 0
-- and below 4 GiB and reaches the 4 GiB limit, behind regions that stay clear of that limit.
pub init-overflow :
    (l : Layout) (m : MemoryMap) (b : FrameBitmap) (before : List MemoryRegion) (r : MemoryRegion)
    (rest : List MemoryRegion) (clean : Bool)
    → length m.buf < 2 ^ 32
    → Yields m (before ++ (r ∷ rest)) clean
    → All IsClear before
    → IsValid b
    → is_available r ≡ true
    → 0 < r.base
    → r.base < 2 ^ 32
    → 2 ^ 32 ≤ r.base + r.len
    → init l m b ≡ panic overflow
unfolding init
init-overflow l m b before r rest clean short yields clear v ram pos below reaches =
    let (b', published, _) = each-publish b before v clear in
    rw (
      for_regions-Yields publish m b (before ++ (r ∷ rest)) clean short yields,
      each-append publish before (r ∷ rest) b,
      published,
      publish-overflow b' r ram pos below reaches,
    )
