-- ===== src/Memory/Paging/Confined/Map.antt =====
-- src/memory/paging.rs: `map_bootstrap` and the loops of `init` on any bitmap, and the frames that they touch.
use zkrnl.Base.{
  ℕ, zero, suc, ◌+◌, ◌*◌, ◌^◌, ◌<◌, ◌≡◌, ◌≢◌, refl, sym, ap, ◌∙◌, Result, out_of_bounds, arith,
  true, Bool-cases, ltb, ◌==◌, inl, inr, Ends, returns, >>=-Ends, if-Ends, require-Halts,
  sub_usize-Halts,
}
use zkrnl.Memory.Address.{PhysAddr, FrameNumber, frame_floor}
use zkrnl.Memory.Address.Virt.{VirtAddr, pd_index, pt_index}
use zkrnl.Memory.Address.Laws.{indices_as_arith}
use zkrnl.Memory.Layout.{Layout, kernel_virtual_base}
use zkrnl.Memory.Frame.Bitmap.{FrameBitmap}
use zkrnl.Memory.Frame.Bitmap.Update.{frame_bit}
use zkrnl.Memory.Frame.Alloc.Allocate.{IsValid}
use zkrnl.Memory.Paging.Flags.{PageFlags}
use zkrnl.Memory.Paging.Entry.{is_present, table_frame}
use zkrnl.Memory.Paging.Entry.Pack.{fields_as_arith}
use zkrnl.Memory.Paging.Directory.{
  Build, write_entry, table_of, map_bootstrap, map_kernel_page, for_pages,
}
use zkrnl.Memory.Paging.Confined.Writes.{
  Taken, alloc_frame-Ends, bootstrap_frame_ptr-Ends, cleared, zero_frame-Ends, for_table-Ends,
  new-Ends, linked_word, written_frame, cleared_frame,
}

-- The frames that were free at the start, the memory of that time, and the frame of the directory.
module _ (v : ℕ → ℕ) (memory₀ : ℕ → ℕ → ℕ) (pd : ℕ) where
  -- No frame has become free, the directory's is taken, its slots below the last point at tables in other
  -- frames that were free and are taken, and memory is as it was in every frame that has not been taken.
  pub record Confined (s : Build) : Type 0 where
    pub valid : IsValid s.allocator
    pub only : (f : ℕ) → frame_bit s.allocator.bitmap f ≡ 1 → frame_bit v f ≡ 1
    pub pd_free : frame_bit v pd ≡ 1
    pub pd_taken : frame_bit s.allocator.bitmap pd ≡ 0
    pub tables :
        (i : ℕ)
        → i < 1023
        → is_present (s.memory pd i) ≡ true
        → (table_frame (s.memory pd i) ≢ pd)
          × (frame_bit v (table_frame (s.memory pd i)) ≡ 1)
          × (frame_bit s.allocator.bitmap (table_frame (s.memory pd i)) ≡ 0)
    pub kept : (f : ℕ) → frame_bit s.allocator.bitmap f ≡ frame_bit v f → s.memory f ≡ memory₀ f

  -- A page table that the directory may point at.
  abbrev IsTable : FrameNumber × Build → Type 0
  IsTable (t, s) =
      Confined s × (t ≢ pd) × (frame_bit v t ≡ 1) × (frame_bit s.allocator.bitmap t ≡ 0)

  table_entry : (t : ℕ) → t < 2 ^ 20 → table_frame (t * 4096 + 3) ≡ t
  table_entry t h = omega (arith, (fields_as_arith (t * 4096 + 3) (omega arith)).2)

  linked-Confined :
      (index t : ℕ) (b : FrameBitmap) (s : Build)
      → Confined s
      → Taken s.allocator t b
      → IsTable (
        t,
        record { memory = write_entry (cleared s.memory t) pd index (t * 4096 + 3); allocator = b },
      )
  linked-Confined index t b s c taken =
      let free : frame_bit v t ≡ 1 = c.only t taken.was_free in
      let other : t ≢ pd =
        λ same. omega (arith, ap (frame_bit s.allocator.bitmap) same, taken.was_free, c.pd_taken) in
      let gone : frame_bit b.bitmap t ≡ 0 = ground (arith, taken.bits t) in
      (
        record {
          valid = taken.valid;
          only = λ f now. c.only f (ground (arith, taken.bits f));
          pd_free = c.pd_free;
          pd_taken = ground (arith, taken.bits pd, c.pd_taken);
          tables = λ i below present.
              let word = linked_word s.memory pd t index (t * 4096 + 3) i other in
              elim (Bool-cases (i == index)) [
                | inl here ↦
                    let points : table_frame
                          (write_entry (cleared s.memory t) pd index (t * 4096 + 3) pd i)
                        ≡ t =
                      rw (word, here) (table_entry t taken.in_range) in
                    rw points (other, free, gone)
                | inr there ↦
                    let same : write_entry (cleared s.memory t) pd index (t * 4096 + 3) pd i
                        ≡ s.memory pd i =
                      rw (word, there) refl in
                    let (apart, was, now) = c.tables i below (rw same at present) in
                    rw same (apart, was, ground (arith, taken.bits (table_frame (s.memory pd i))))
              ];
          kept = λ f still.
              let not_pd : f ≢ pd = λ same. ground (
                arith,
                ap (frame_bit v) same,
                c.pd_free,
                c.pd_taken,
                taken.bits pd,
                still,
                ap (frame_bit b.bitmap) same,
              ) in
              let not_t : f ≢ t = λ same.
                omega
                  (arith, ap (frame_bit v) same, free, gone, still, ap (frame_bit b.bitmap) same) in
              written_frame (cleared s.memory t) pd index (t * 4096 + 3) f not_pd
              ∙ cleared_frame s.memory t f not_t
              ∙ c.kept f (ground (arith, taken.bits f, still));
        },
        other,
        free,
        gone,
      )

  table_of-Ends :
      (index : ℕ) (s : Build) → index < 1023 → Confined s → Ends IsTable (table_of pd index s)
  unfolding table_of
  table_of-Ends index s below c = elim (Bool-cases (is_present (s.memory pd index))) [
    | inl present ↦
        let (other, free, gone) = c.tables index below present in
        rw present (returns (table_frame (s.memory pd index), s) (c, other, free, gone))
    | inr absent ↦ rw absent (
        >>=-Ends (alloc_frame-Ends s.allocator c.valid) λ (t, b) taken.
          >>=-Ends (zero_frame-Ends s.memory t) λ memory zeroed.
            >>=-Ends (for_table-Ends t taken.in_range)
              λ entry points. rw (zeroed, points) (returns _ (linked-Confined index t b s c taken)))
  ]

  -- A write into a page table.
  written-Confined :
      (t index e : ℕ) (s : Build)
      → IsTable (t, s)
      → Confined (record s { memory = write_entry s.memory t index e })
  written-Confined t index e s (c, other, free, gone) =
      let same : write_entry s.memory t index e pd ≡ s.memory pd =
        written_frame s.memory t index e pd (λ eq. other (sym eq)) in
      record {
        valid = c.valid;
        only = c.only;
        pd_free = c.pd_free;
        pd_taken = c.pd_taken;
        tables = rw same c.tables;
        kept = λ f still.
            let not_t : f ≢ t = λ eq. omega (
              arith,
              ap (frame_bit v) eq,
              free,
              gone,
              still,
              ap (frame_bit s.allocator.bitmap) eq,
            ) in
            written_frame s.memory t index e f not_t ∙ c.kept f still;
      }

  pub map_bootstrap-Ends :
      (virt : VirtAddr) (phys : PhysAddr) (flags : PageFlags) (s : Build)
      → virt < 0xFFC0_0000
      → Confined s
      → Ends Confined (map_bootstrap pd virt phys flags s)
  unfolding map_bootstrap
  map_bootstrap-Ends virt phys flags s below c =
      let slot : pd_index virt < 1023 = omega (arith, indices_as_arith virt) in
      >>=-Ends (require-Halts (ltb (pd_index virt) 1024) out_of_bounds λ e. cc) λ _ _.
        >>=-Ends (table_of-Ends (pd_index virt) s slot c) λ (frame, s') is_table.
          >>=-Ends (bootstrap_frame_ptr-Ends frame) λ table same.
            >>=-Ends (new-Ends (frame_floor phys) flags) λ entry _.
              >>=-Ends (require-Halts (ltb (pt_index virt) 1024) out_of_bounds λ e. cc) λ _ _.
                rw same (returns _ (written-Confined frame (pt_index virt) entry s' is_table))

  pub map_kernel_page-Ends :
      (l : Layout) (virt : VirtAddr) (s : Build)
      → virt < 0xFFC0_0000
      → Confined s
      → Ends Confined (map_kernel_page l pd virt s)
  unfolding map_kernel_page
  map_kernel_page-Ends l virt s below c = if-Ends (virt == l.stack_guard_addr) (returns s c) (
      >>=-Ends (sub_usize-Halts virt kernel_virtual_base)
        λ phys _. map_bootstrap-Ends virt phys _ s below c)

  -- The loop over the pages from `a` on, all of which lie below `limit`.
  pub for_pages-Ends :
      (body : ℕ → Build → Result Build) (limit : ℕ)
      → ((a : ℕ) (s : Build) → a < limit → Confined s → Ends Confined (body a s))
      → (n a : ℕ) (s : Build) → a + n * 4096 < limit + 4096
      → Confined s
      → Ends Confined (for_pages body n a s)
  unfolding for_pages
  for_pages-Ends body limit step zero a s inside c = returns s c
  for_pages-Ends body limit step (suc n) a s inside c =
      >>=-Ends (step a s (omega arith) c)
        λ s' c'. for_pages-Ends body limit step n _ s' (omega arith) c'
