-- ===== src/Memory/Boot/Shared.antt =====
-- src/memory/mod.rs: the frames and the page directory after `init`, while callers of the allocator run.
use zkrnl.Base.{
  ℕ, ◌/◌, ◌^◌, ◌<◌, ◌≡◌, List, [], ok, arith, true, false, some, length, All, Bool-cases, inl, inr,
}
use zkrnl.Multiboot.{MultibootInfo, MemoryRegion, MemoryMap, memory_map}
use zkrnl.Multiboot.Walk.{Yields}
use zkrnl.Memory.Layout.{Layout, IsLinked}
use zkrnl.Memory.Frame.Bitmap.{FrameBitmap, FrameRun, frame_count, new}
use zkrnl.Memory.Frame.Bitmap.Update.{frame_bit}
use zkrnl.Memory.Frame.Alloc.Ownership.{Reach}
use zkrnl.Memory.Frame.Alloc.Books.{in_any, Reach-Books}
use zkrnl.Memory.Frame.Alloc.Allocate.{IsValid}
use zkrnl.Memory.Frame.Init.Publish.{IsClear, usable_in}
use zkrnl.Memory.Frame.Init.Boot.{kept}
use zkrnl.Memory.Paging.Directory.{Build}
use zkrnl.Memory.Paging.Directory.Init.{IsSmall}
use zkrnl.Memory.Paging.Directory.Loaded.{kernel_view}
use zkrnl.Memory.Paging.Translate.{translate}
use zkrnl.Memory.Paging.Shared.{Spares, init-Spares}
use zkrnl.Memory.Boot.{init, IsSpare, init_frames-HasFrames, init-eq}

-- Writes to the frames of the runs that are held leave the occupied frames of the start alone.
held-Spares :
    (s : Build) (memory : ℕ → ℕ → ℕ) {c : FrameBitmap} {held : List FrameRun}
    → IsValid s.allocator
    → Reach s.allocator [] c held
    → ((k : ℕ) → in_any held k ≡ false → memory k ≡ s.memory k)
    → Spares s memory
held-Spares s memory {c} {held} v reach same k used = elim (Bool-cases (in_any held k)) [
  | inl inside ↦ absurd (omega (arith, (Reach-Books v reach k).0 inside))
  | inr outside ↦ same k outside
]

-- On a Multiboot map whose regions stay clear of the 4 GiB limit, with three spare frames in the low
-- 4 MiB, and a linked kernel image that ends there, `memory::init` from the empty allocator does not
-- fail, and after it, whatever callers allocate and release: every frame that they hold lies wholly in
-- available memory and is neither the first frame nor one of the kernel's, and whatever they write to the
-- frames that they hold, the processor still walks the directory that was loaded, for every address below
-- the last slot, to exactly the kernel's view.
pub init-Reach :
    (l : Layout) (bytes : ℕ → ℕ) (info : MultibootInfo) (words : ℕ → ℕ → ℕ) (m : MemoryMap)
    (rs : List MemoryRegion) (f g h : ℕ)
    → IsLinked l
    → IsSmall l
    → memory_map bytes info ≡ some m
    → length m.buf < 2 ^ 32
    → Yields m rs true
    → All IsClear rs
    → IsSpare l rs f
    → IsSpare l rs g
    → IsSpare l rs h
    → f < g
    → g < h
    → (pd : ℕ) × (s' : Build) × (init l bytes info (record { memory = words; allocator = new })
        ≡ ok (pd, s'))
      × ((c : FrameBitmap) (held : List FrameRun)
          → Reach s'.allocator [] c held
          → ((k : ℕ)
              → k < frame_count
              → in_any held k ≡ true
              → (usable_in rs k ≡ true) × (kept l k ≡ false))
            × ((memory : ℕ → ℕ → ℕ)
                → ((k : ℕ) → in_any held k ≡ false → memory k ≡ s'.memory k)
                → (v : ℕ) → v / 2 ^ 22 < 1023
                → translate (memory pd) memory v ≡ kernel_view l v))
init-Reach l bytes info words m rs f g h linked small map_e short yields clear spare_f spare_g
      spare_h fg gh =
    let (b, e, frames, bits) =
      init_frames-HasFrames l m rs f g h linked short yields clear spare_f spare_g spare_h fg gh in
    let s : Build = record { memory = words; allocator = b } in
    let (pd, s', built, valid, only, view) = init-Spares l s linked small frames in
    (
      pd,
      s',
      init-eq l bytes info (record { memory = words; allocator = new }) map_e e built,
      λ c held reach. (
        λ k inside taken.
            let free : frame_bit b.bitmap k ≡ 1 = only k ((Reach-Books valid reach k).0 taken) in
            let bit = bits k inside in (ground arith, ground arith),
        λ memory same. view memory (held-Spares s' memory valid reach same),
      ),
    )
