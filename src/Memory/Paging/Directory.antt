-- ===== src/Memory/Paging/Directory.antt =====
-- src/memory/paging.rs: the bootstrap directory, and `init`, which builds the real one in physical
-- memory while the first 4 MiB are identity-mapped. Physical memory is a function from a frame and the
-- index of one of its 1024 words; a pointer to a paging frame is the frame's number.
pub mod Boot
pub mod Supply
pub mod Invariant
pub mod Table
pub mod Map
pub mod Pages
pub mod Init
pub mod Entries
pub mod Loaded
use zkrnl.Base.{
  ℕ, zero, suc, ◌+◌, ◌-◌, ◌/◌, ◌%◌, ◌^◌, Bool, true, false, Option, none, some, Result, ok, panic,
  require, out_of_bounds, out_of_frames, above_identity_map, ◌>>=◌, ◌>>◌, sub_usize, ltb, ◌==◌,
  if◌then◌else◌, update,
}
use zkrnl.Memory.Address.{FrameNumber, PhysAddr, frame_floor, base_addr, div_ceil}
use zkrnl.Memory.Address.Virt.{VirtAddr, pd_index, pt_index}
use zkrnl.Memory.Layout.{Layout, kernel_virtual_base}
use zkrnl.Memory.Frame.Bitmap.{FrameBitmap}
use zkrnl.Memory.Frame.Alloc.{allocate_one}
use zkrnl.Memory.Paging.Flags.{
  PageFlags, kernel_ro, kernel_rw, page_size, page_table_span, entry_count,
}
use zkrnl.Memory.Paging.Entry.{empty, new, for_table, for_huge_page, is_present, table_frame}

-- `PageDirectory::bootstrap`
unfoldable pub bootstrap : Result (ℕ → ℕ)
bootstrap = do
  low ← for_huge_page 0 kernel_rw
  high ← for_huge_page 0 kernel_rw
  ok (update (update (λ _. empty) 0 low) (kernel_virtual_base / page_table_span) high)

abbrev pub recursive_index : ℕ
recursive_index = entry_count - 1

abbrev pub bootstrap_identity_limit : ℕ
bootstrap_identity_limit = page_table_span

-- What the builder changes: the words of physical memory and the frame allocator.
pub record Build : Type 0 where
  pub memory : ℕ → ℕ → ℕ
  pub allocator : FrameBitmap

unfoldable pub write_entry : (ℕ → ℕ → ℕ) → FrameNumber → ℕ → ℕ → ℕ → ℕ → ℕ
write_entry memory frame index value f =
    if f == frame then update (memory f) index value else memory f

unfoldable pub alloc_frame : FrameBitmap → Result (FrameNumber × FrameBitmap)
alloc_frame allocator = allocate_one allocator >>= λ (run, allocator'). elim run [
  | none ↦ panic out_of_frames
  | some r ↦ ok (r.start, allocator')
]

unfoldable pub bootstrap_frame_ptr : FrameNumber → Result FrameNumber
bootstrap_frame_ptr frame = do
  phys ← base_addr frame
  require (ltb phys bootstrap_identity_limit) above_identity_map
  ok frame

unfoldable pub zero_frame : (ℕ → ℕ → ℕ) → FrameNumber → Result (ℕ → ℕ → ℕ)
zero_frame memory frame = do
  ptr ← bootstrap_frame_ptr frame
  ok (λ f. if f == ptr then (λ _. 0) else memory f)

-- The page table of a directory slot, with the builder after it: an absent one is allocated.
unfoldable pub table_of : FrameNumber → ℕ → Build → Result (FrameNumber × Build)
table_of pd index s =
    if is_present (s.memory pd index)
    then ok (table_frame (s.memory pd index), s)
    else alloc_frame s.allocator >>= λ (frame, allocator). do
      memory ← zero_frame s.memory frame
      entry ← for_table frame kernel_rw
      ok (frame, record { memory = write_entry memory pd index entry; allocator = allocator })

unfoldable pub map_bootstrap : FrameNumber → VirtAddr → PhysAddr → PageFlags → Build → Result Build
map_bootstrap pd virt phys flags s = do
  require (ltb (pd_index virt) entry_count) out_of_bounds
  table_of pd (pd_index virt) s >>= λ (frame, s'). do
    table ← bootstrap_frame_ptr frame
    entry ← new (frame_floor phys) flags
    require (ltb (pt_index virt) entry_count) out_of_bounds
    ok (record s' { memory = write_entry s'.memory table (pt_index virt) entry })

-- The body of the first loop of `init`; `continue` at the guard page.
unfoldable pub map_kernel_page : Layout → FrameNumber → VirtAddr → Build → Result Build
map_kernel_page l pd virt s = if virt == l.stack_guard_addr then ok s else do
  phys ← sub_usize virt kernel_virtual_base
  map_bootstrap pd virt phys (if ltb virt l.kernel_data_start_addr then kernel_ro else kernel_rw) s

unfoldable pub map_low_page : FrameNumber → PhysAddr → Build → Result Build
map_low_page pd phys s = map_bootstrap pd phys phys kernel_rw s

-- `for a in (start..end).step_by(PAGE_SIZE) { body }`, with so many rounds left.
unfoldable pub for_pages : (ℕ → Build → Result Build) → ℕ → ℕ → Build → Result Build
for_pages body zero a s = ok s
for_pages body (suc n) a s = body a s >>= for_pages body n (a + page_size)

unfoldable pub pages_between : ℕ → ℕ → ℕ
pages_between lo hi = div_ceil (hi - lo) page_size

-- `paging::init` up to the switch (`Paging.Switch`): the frame of the new directory, and the builder at
-- the end.
unfoldable pub init : Layout → Build → Result (FrameNumber × Build)
init l s = alloc_frame s.allocator >>= λ (pd, allocator). do
  memory ← zero_frame s.memory pd
  ptr ← bootstrap_frame_ptr pd
  self ← for_table pd kernel_rw
  let cleared : Build = record {
    memory = write_entry memory ptr recursive_index self;
    allocator = allocator;
  }
  image ←
      for_pages (map_kernel_page l pd)
        (pages_between l.kernel_virt_start_addr l.kernel_virt_end_addr) l.kernel_virt_start_addr
        cleared
  low ← for_pages (map_low_page pd) (pages_between 0 l.kernel_phys_start_addr) 0 image
  ok (pd, low)
