-- ===== src/Memory/Boot/Kept.antt =====
-- src/memory/mod.rs: `init` and the frames that are not free after the memory map was read.
use zkrnl.Base.{
  ℕ, ◌/◌, ◌%◌, ◌^◌, ◌≤◌, ◌<◌, ◌≡◌, ok, List, arith, true, false, some, length, All, ◌⊎◌, inl, inr,
  Ends, weaken, ◌∙◌,
}
use zkrnl.Multiboot.{MultibootInfo, MemoryRegion, MemoryMap, memory_map}
use zkrnl.Multiboot.Walk.{Yields}
use zkrnl.Memory.Address.{FrameNumber}
use zkrnl.Memory.Layout.{Layout, IsLinked}
use zkrnl.Memory.Frame.Bitmap.{FrameBitmap, frame_count, new}
use zkrnl.Memory.Frame.Bitmap.Update.{frame_bit}
use zkrnl.Memory.Frame.Init.{init as init_frames}
use zkrnl.Memory.Frame.Init.Publish.{IsClear, usable_in}
use zkrnl.Memory.Frame.Init.Boot.{kept, init-usable_in}
use zkrnl.Memory.Paging.Directory.{Build, init as init_paging}
use zkrnl.Memory.Paging.Confined.{init-Confined}
use zkrnl.Memory.Boot.{init, new-IsValid}
use zkrnl.Word.Bit.{bit-zero, bit-le-one}
use mathlib.Core.Path.{subst, sym}

init-paging :
    (l : Layout) (bytes : ℕ → ℕ) (info : MultibootInfo) (s : Build) {m : MemoryMap}
    {b : FrameBitmap}
    → memory_map bytes info ≡ some m
    → init_frames l m s.allocator ≡ ok b
    → init l bytes info s ≡ init_paging l (record s { allocator = b })
unfolding init
init-paging l bytes info s map_e frames = rw (init, map_e, frames)

-- A frame in use stays so where no frame becomes free.
still_used :
    (v v' : ℕ → ℕ) (f : ℕ)
    → (frame_bit v' f ≡ 1 → frame_bit v f ≡ 1)
    → frame_bit v f ≡ 0
    → frame_bit v' f ≡ frame_bit v f
still_used v v' f only used = ground (arith, bit-le-one (v' (f / 32)) (f % 32))

-- From the empty allocator, on a memory map whose regions stay clear of the 4 GiB limit, with a linked
-- image that ends below the last 4 MiB of the address space: if `memory::init` returns, it has written to
-- no frame that the kernel keeps, which are the first one and those of its image with its stack, to no
-- frame that does not lie wholly in available memory, and to no frame that is still free. It returns or
-- panics; it does not run out of rounds.
pub init-kept :
    (l : Layout) (bytes : ℕ → ℕ) (info : MultibootInfo) (words : ℕ → ℕ → ℕ) (map : MemoryMap)
    (rs : List MemoryRegion)
    → IsLinked l
    → l.kernel_virt_end_addr ≤ 0xFFC0_0000
    → memory_map bytes info ≡ some map
    → length map.buf < 2 ^ 32
    → Yields map rs true
    → All IsClear rs
    → Ends
        (λ ((pd, s) : FrameNumber × Build).
          (f : ℕ)
          → f < frame_count
          → (kept l f ≡ true) ⊎ (usable_in rs f ≡ false) ⊎ (frame_bit s.allocator.bitmap f ≡ 1)
          → s.memory f ≡ words f)
        (init l bytes info (record { memory = words; allocator = new }))
init-kept l bytes info words map rs linked small map_e short yields clear =
    let (b, frames, valid, hint, bits) =
      init-usable_in l map new rs linked short yields clear new-IsValid in
    let s : Build = record { memory = words; allocator = new } in
    subst (Ends _) (sym (init-paging l bytes info s map_e frames)) (
      weaken (init-Confined l (record s { allocator = b }) linked small valid)
        λ (pd, s') (was, gone, only, same) f inside cause. same f (elim cause [
          | inl kernel ↦
              still_used b.bitmap s'.allocator.bitmap f (only f) (ground (arith, bits f inside))
          | inr (inl outside) ↦
              still_used b.bitmap s'.allocator.bitmap f (only f)
                (ground (arith, bits f inside, bit-zero (f % 32)))
          | inr (inr free_now) ↦ free_now ∙ sym (only f free_now)
        ]))
