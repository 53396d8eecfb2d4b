-- ===== src/Memory/Paging/Ends.antt =====
-- `paging::init` and the closing switch end on every machine.
use zkrnl.Base.{
  ℕ, zero, suc, ◌^◌, Result, ok, panic, out_of_bounds, out_of_frames, above_identity_map, none,
  some, ltb, Halts, returns, panics, >>=-Ends, if-Ends, require-Halts, sub_usize-Halts,
  mul_usize-Halts, by_option, ◌==◌,
}
use zkrnl.Memory.Address.{PhysAddr, FrameNumber, base_addr, frame_floor}
use zkrnl.Memory.Address.Virt.{VirtAddr, pd_index, pt_index}
use zkrnl.Memory.Layout.{Layout, kernel_virtual_base}
use zkrnl.Memory.Frame.Bitmap.{FrameBitmap}
use zkrnl.Memory.Frame.Alloc.{allocate_one}
use zkrnl.Memory.Frame.Ends.{allocate-Halts}
use zkrnl.Memory.Paging.Flags.{PageFlags, kernel_rw}
use zkrnl.Memory.Paging.Entry.{new, for_table, is_present}
use zkrnl.Memory.Paging.Directory.{
  Build, alloc_frame, bootstrap_frame_ptr, zero_frame, table_of, map_bootstrap, map_kernel_page,
  map_low_page, for_pages, init,
}
use zkrnl.Memory.Paging.Switch.{ControlRegisters, load_directory}

base_addr-Halts : (frame : FrameNumber) → Halts (base_addr frame)
unfolding base_addr
base_addr-Halts frame = mul_usize-Halts frame 4096

alloc_frame-Halts : (b : FrameBitmap) → Halts (alloc_frame b)
unfolding alloc_frame allocate_one
alloc_frame-Halts b = >>=-Ends (allocate-Halts b 1) λ (run, b') _.
    by_option (λ o. Halts (elim o [ none ↦ panic out_of_frames | some r ↦ ok (r.start, b') ]))
      (panics out_of_frames λ e. cc) (λ r. returns _ tt) run

bootstrap_frame_ptr-Halts : (frame : FrameNumber) → Halts (bootstrap_frame_ptr frame)
unfolding bootstrap_frame_ptr
bootstrap_frame_ptr-Halts frame = >>=-Ends (base_addr-Halts frame) λ phys _.
    >>=-Ends (require-Halts (ltb phys (2 ^ 22)) above_identity_map λ e. cc) λ _ _. returns _ tt

zero_frame-Halts : (memory : ℕ → ℕ → ℕ) (frame : FrameNumber) → Halts (zero_frame memory frame)
unfolding zero_frame
zero_frame-Halts memory frame = >>=-Ends (bootstrap_frame_ptr-Halts frame) λ ptr _. returns _ tt

new-Halts : (frame : FrameNumber) (flags : PageFlags) → Halts (new frame flags)
unfolding new
new-Halts frame flags = >>=-Ends (base_addr-Halts frame) λ base _. returns _ tt

for_table-Halts : (frame : FrameNumber) (flags : PageFlags) → Halts (for_table frame flags)
unfolding for_table
for_table-Halts frame flags = >>=-Ends (base_addr-Halts frame) λ base _. returns _ tt

table_of-Halts : (pd : FrameNumber) (index : ℕ) (s : Build) → Halts (table_of pd index s)
unfolding table_of
table_of-Halts pd index s = if-Ends (is_present (s.memory pd index)) (returns _ tt) (
    >>=-Ends (alloc_frame-Halts s.allocator) λ (frame, allocator) _.
      >>=-Ends (zero_frame-Halts s.memory frame)
        λ memory _. >>=-Ends (for_table-Halts frame kernel_rw) λ entry _. returns _ tt)

map_bootstrap-Halts :
    (pd : FrameNumber) (virt : VirtAddr) (phys : PhysAddr) (flags : PageFlags) (s : Build)
    → Halts (map_bootstrap pd virt phys flags s)
unfolding map_bootstrap
map_bootstrap-Halts pd virt phys flags s =
    >>=-Ends (require-Halts (ltb (pd_index virt) 1024) out_of_bounds λ e. cc) λ _ _.
      >>=-Ends (table_of-Halts pd (pd_index virt) s) λ (frame, s') _.
        >>=-Ends (bootstrap_frame_ptr-Halts frame) λ table _.
          >>=-Ends (new-Halts (frame_floor phys) flags) λ entry _.
            >>=-Ends (require-Halts (ltb (pt_index virt) 1024) out_of_bounds λ e. cc)
              λ _ _. returns _ tt

map_kernel_page-Halts :
    (l : Layout) (pd : FrameNumber) (virt : VirtAddr) (s : Build)
    → Halts (map_kernel_page l pd virt s)
unfolding map_kernel_page
map_kernel_page-Halts l pd virt s = if-Ends (virt == l.stack_guard_addr) (returns s tt) (
    >>=-Ends (sub_usize-Halts virt kernel_virtual_base)
      λ phys _. map_bootstrap-Halts pd virt phys _ s)

for_pages-Halts :
    (body : ℕ → Build → Result Build)
    → ((a : ℕ) (s : Build) → Halts (body a s))
    → (n a : ℕ) (s : Build) → Halts (for_pages body n a s)
unfolding for_pages
for_pages-Halts body step zero a s = returns s tt
for_pages-Halts body step (suc n) a s = >>=-Ends (step a s) λ s' _. for_pages-Halts body step n _ s'

pub init-Halts : (l : Layout) (s : Build) → Halts (init l s)
unfolding init map_low_page
init-Halts l s = >>=-Ends (alloc_frame-Halts s.allocator) λ (pd, allocator) _.
    >>=-Ends (zero_frame-Halts s.memory pd) λ memory _.
      >>=-Ends (bootstrap_frame_ptr-Halts pd) λ ptr _.
        >>=-Ends (for_table-Halts pd kernel_rw) λ self _.
          >>=-Ends (for_pages-Halts (map_kernel_page l pd) (map_kernel_page-Halts l pd) _ _ _)
            λ image _.
              >>=-Ends
                (for_pages-Halts (map_low_page pd) (λ a s. map_bootstrap-Halts pd a a kernel_rw s) _
                  _ image)
                λ low _. returns _ tt

pub load_directory-Halts : (pd : FrameNumber) (r : ControlRegisters) → Halts (load_directory pd r)
unfolding load_directory
load_directory-Halts pd r = >>=-Ends (base_addr-Halts pd) λ base _. returns _ tt
