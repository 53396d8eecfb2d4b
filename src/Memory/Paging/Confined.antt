-- ===== src/Memory/Paging/Confined.antt =====
-- src/memory/paging.rs: the frames that `init` writes to, on an allocator with any frames free.
pub mod Writes
pub mod Map
use zkrnl.Base.{
  weaken, ℕ, ◌+◌, ◌*◌, ◌≤◌, ◌<◌, ◌≡◌, ◌≢◌, ap, ◌∙◌, arith, false, Ends, returns, >>=-Ends,
}
use zkrnl.Memory.Address.{FrameNumber, div_ceil}
use zkrnl.Memory.Layout.{Layout, IsLinked}
use zkrnl.Memory.Frame.Bitmap.{FrameBitmap}
use zkrnl.Memory.Frame.Bitmap.Update.{frame_bit}
use zkrnl.Memory.Frame.Alloc.Allocate.{IsValid}
use zkrnl.Memory.Paging.Flags.{kernel_rw}
use zkrnl.Memory.Paging.Entry.{is_present}
use zkrnl.Memory.Paging.Entry.Pack.{fields_as_arith}
use zkrnl.Memory.Paging.Directory.{
  Build, write_entry, map_kernel_page, map_low_page, init, pages_between,
}
use zkrnl.Memory.Paging.Confined.Writes.{
  Taken, alloc_frame-Ends, bootstrap_frame_ptr-Ends, cleared, zero_frame-Ends, for_table-Ends,
  written_frame, cleared_frame,
}
use zkrnl.Memory.Paging.Confined.Map.{
  Confined, map_kernel_page-Ends, map_bootstrap-Ends, for_pages-Ends,
}

fresh_word :
    (memory : ℕ → ℕ → ℕ) (pd i : ℕ)
    → i < 1023
    → write_entry (cleared memory pd) pd 1023 (pd * 4096 + 3) pd i ≡ 0
unfolding write_entry
fresh_word memory pd i below = ground arith

empty-is_present : is_present 0 ≡ false
empty-is_present = (fields_as_arith 0 (omega arith)).3

-- The cleared directory with its last slot.
start-Confined :
    (s : Build) (pd : ℕ) (b : FrameBitmap)
    → Taken s.allocator pd b
    → Confined s.allocator.bitmap s.memory pd (record {
      memory = write_entry (cleared s.memory pd) pd 1023 (pd * 4096 + 3);
      allocator = b;
    })
start-Confined s pd b taken = record {
  valid = taken.valid;
  only = λ f now. ground (arith, taken.bits f);
  pd_free = taken.was_free;
  pd_taken = ground (arith, taken.bits pd);
  tables = λ i below present.
      absurd (ground (arith, ap is_present (fresh_word s.memory pd i below), empty-is_present));
  kept = λ f still.
      let other : f ≢ pd = λ same. ground (
        arith,
        ap (frame_bit s.allocator.bitmap) same,
        ap (frame_bit b.bitmap) same,
        taken.was_free,
        taken.bits pd,
        still,
      ) in
      written_frame (cleared s.memory pd) pd 1023 (pd * 4096 + 3) f other
      ∙ cleared_frame s.memory pd f other;
}

pages_between-lt : (lo hi : ℕ) → lo ≤ hi → lo + pages_between lo hi * 4096 < hi + 4096
unfolding pages_between div_ceil
pages_between-lt lo hi h = ground arith

-- Whatever it maps, `init` stays confined to the frames that were free.
pub init_within :
    (l : Layout) (s : Build)
    → IsLinked l
    → l.kernel_virt_end_addr ≤ 0xFFC0_0000
    → IsValid s.allocator
    → Ends
        (λ ((pd, s') : FrameNumber × Build). Confined s.allocator.bitmap s.memory pd s')
        (init l s)
unfolding init map_low_page
init_within l s linked small v = >>=-Ends (alloc_frame-Ends s.allocator v) λ (pd, b) taken.
    >>=-Ends (zero_frame-Ends s.memory pd) λ memory zeroed.
      >>=-Ends (bootstrap_frame_ptr-Ends pd) λ ptr same.
        >>=-Ends (for_table-Ends pd taken.in_range) λ self points.
          >>=-Ends
            (for_pages-Ends s.allocator.bitmap s.memory pd (map_kernel_page l pd) 0xFFC0_0000
              (map_kernel_page-Ends s.allocator.bitmap s.memory pd l)
              (pages_between l.kernel_virt_start_addr l.kernel_virt_end_addr)
              l.kernel_virt_start_addr _
              (omega (arith, pages_between-lt l.kernel_virt_start_addr l.kernel_virt_end_addr))
              (rw (zeroed, same, points) (start-Confined s pd b taken)))
            λ image c.
              >>=-Ends
                (for_pages-Ends s.allocator.bitmap s.memory pd (map_low_page pd) 0xFFC0_0000
                  (λ a s' below c'.
                    map_bootstrap-Ends s.allocator.bitmap s.memory pd a a kernel_rw s' below c')
                  (pages_between 0 l.kernel_phys_start_addr) 0 image
                  (omega (arith, pages_between-lt 0 l.kernel_phys_start_addr)) c)
                λ low d. returns (pd, low) d

-- With a linked image that ends below the last 4 MiB of the address space, and a valid allocator with any
-- frames free, `init` writes only to the frames that it takes: when it returns, the directory stands in a
-- frame that was free and is taken, no frame has become free, and every frame whose bit in the bitmap is
-- as it was, in use before or still free, holds what it held. It returns or panics; it does not run out
-- of rounds.
pub init-Confined :
    (l : Layout) (s : Build)
    → IsLinked l
    → l.kernel_virt_end_addr ≤ 0xFFC0_0000
    → IsValid s.allocator
    → Ends
        (λ ((pd, s') : FrameNumber × Build).
          (frame_bit s.allocator.bitmap pd ≡ 1)
          × (frame_bit s'.allocator.bitmap pd ≡ 0)
          × ((f : ℕ) → frame_bit s'.allocator.bitmap f ≡ 1 → frame_bit s.allocator.bitmap f ≡ 1)
          × ((f : ℕ)
              → frame_bit s'.allocator.bitmap f ≡ frame_bit s.allocator.bitmap f
              → s'.memory f ≡ s.memory f))
        (init l s)
init-Confined l s linked small v =
    weaken (init_within l s linked small v) λ (pd, s') c. (c.pd_free, c.pd_taken, c.only, c.kept)
