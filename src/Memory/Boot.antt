-- ===== src/Memory/Boot.antt =====
-- src/memory/mod.rs: `init`, from the Multiboot hand-off to the loaded page directory. The boot
-- information is read as bytes before the builder writes any word of physical memory.
pub mod Kept
pub mod Shared
use zkrnl.Base.{
  if◌then◌else◌, ◌%◌, ℕ, ◌/◌, ◌^◌, ◌<◌, ◌≡◌, refl, List, ok, panic, no_memory_map, Result, arith,
  ◌∙◌, true, false, none, some, length, All, ◌>>=◌,
}
use zkrnl.Multiboot.{MultibootInfo, MemoryRegion, MemoryMap, memory_map}
use zkrnl.Multiboot.Walk.{Yields}
use zkrnl.Memory.Address.{FrameNumber}
use zkrnl.Memory.Layout.{Layout, IsLinked}
use zkrnl.Memory.Frame.Bitmap.{FrameBitmap, frame_count, new}
use zkrnl.Word.Bit.{bit-zero}
use zkrnl.Memory.Frame.Bitmap.Update.{frame_bit}
use zkrnl.Memory.Frame.Alloc.Allocate.{IsValid}
use zkrnl.Memory.Frame.Init.{init as init_frames}
use zkrnl.Memory.Frame.Init.Publish.{IsClear, usable_in}
use zkrnl.Memory.Frame.Init.Boot.{kept, init-usable_in}
use zkrnl.Memory.Paging.Directory.{Build, init as init_paging}
use zkrnl.Memory.Paging.Directory.Supply.{HasFrames}
use zkrnl.Memory.Paging.Directory.Init.{IsSmall}
use zkrnl.Memory.Paging.Directory.Loaded.{kernel_view, init-translate}
use zkrnl.Memory.Paging.Translate.{translate}

-- `memory::init`, on the words of physical memory and the allocator `FRAME_ALLOCATOR`.
unfoldable pub init : Layout → (ℕ → ℕ) → MultibootInfo → Build → Result (FrameNumber × Build)
init l bytes info s = elim (memory_map bytes info) [
  | none ↦ panic no_memory_map
  | some m ↦ init_frames l m s.allocator >>= λ allocator.
      init_paging l (record s { allocator = allocator })
]

-- The first value of `FRAME_ALLOCATOR`.
pub new-IsValid : IsValid new
new-IsValid = record { hint_in_range = omega arith; words = λ i. omega arith }

pub init-eq :
    (l : Layout) (bytes : ℕ → ℕ) (info : MultibootInfo) (s : Build) {m : MemoryMap}
    {b : FrameBitmap} {r : FrameNumber × Build}
    → memory_map bytes info ≡ some m
    → init_frames l m s.allocator ≡ ok b
    → init_paging l (record s { allocator = b }) ≡ ok r
    → init l bytes info s ≡ ok r
unfolding init
init-eq l bytes info s map_e frames paging = rw (init, map_e, frames) paging

-- A frame of the low 4 MiB that lies in available memory and that the kernel does not keep.
abbrev pub IsSpare : Layout → List MemoryRegion → ℕ → Type 0
IsSpare l rs f = (f < 1024) × (usable_in rs f ≡ true) × (kept l f ≡ false)

-- The allocator that the map gives has three frames for the builder, and its bits.
pub init_frames-HasFrames :
    (l : Layout) (m : MemoryMap) (rs : List MemoryRegion) (f g h : ℕ)
    → IsLinked l
    → length m.buf < 2 ^ 32
    → Yields m rs true
    → All IsClear rs
    → IsSpare l rs f
    → IsSpare l rs g
    → IsSpare l rs h
    → f < g
    → g < h
    → (b : FrameBitmap) × (init_frames l m new ≡ ok b)
      × HasFrames b 3
      × ((k : ℕ)
          → k < frame_count
          → frame_bit b.bitmap k ≡ (if kept l k then 0 else if usable_in rs k then 1 else 0))
init_frames-HasFrames l m rs f g h linked short yields clear spare_f spare_g spare_h fg gh =
    let (b, e, valid, hint, bits) =
      init-usable_in l m new rs linked short yields clear new-IsValid in
    let free : (k : ℕ) → IsSpare l rs k → frame_bit b.bitmap k ≡ 1 =
      λ k (low, usable, spare). bits k (omega arith) ∙ rw (usable, spare) refl in
    let supply : HasFrames b 3 = (
      valid,
      (
        f,
        omega arith,
        omega arith,
        free f spare_f,
        (
          g,
          omega arith,
          omega arith,
          free g spare_g,
          (h, omega arith, omega arith, free h spare_h, tt),
        ),
      ),
    ) in
    (b, e, supply, λ k inside. bits k inside ∙ ground (arith, bit-zero (k % 32)))

-- On a Multiboot map whose regions stay clear of the 4 GiB limit, with three spare frames in the low
-- 4 MiB, and a linked kernel image that ends there, `memory::init` from the empty allocator does not
-- fail, the directory lies in the low 4 MiB, and the processor walks the directory that it loads, for
-- every address below the last slot, to exactly the kernel's view.
pub init_lem :
    (l : Layout) (bytes : ℕ → ℕ) (info : MultibootInfo) (words : ℕ → ℕ → ℕ) (m : MemoryMap)
    (rs : List MemoryRegion) (f g h : ℕ)
    → IsLinked l
    → IsSmall l
    → memory_map bytes info ≡ some m
    → length m.buf < 2 ^ 32
    → Yields m rs true
    → All IsClear rs
    → IsSpare l rs f
    → IsSpare l rs g
    → IsSpare l rs h
    → f < g
    → g < h
    → (pd : ℕ) × (s' : Build) × (init l bytes info (record { memory = words; allocator = new })
        ≡ ok (pd, s'))
      × (pd < 1024)
      × ((v : ℕ) → v / 2 ^ 22 < 1023 → translate (s'.memory pd) s'.memory v ≡ kernel_view l v)
init_lem l bytes info words m rs f g h linked small map_e short yields clear spare_f spare_g spare_h
      fg gh =
    let (b, e, frames, bits) =
      init_frames-HasFrames l m rs f g h linked short yields clear spare_f spare_g spare_h fg gh in
    let s : Build = record { memory = words; allocator = b } in
    let (pd, s', built, low, view, self) = init-translate l s linked small frames in
    (
      pd,
      s',
      init-eq l bytes info (record { memory = words; allocator = new }) map_e e built,
      low,
      view,
    )
