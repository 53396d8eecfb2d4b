-- ===== src/Memory/Paging/Directory/Entries.antt =====
-- `paging::init` as a whole: the shape of the directory that it builds.
use zkrnl.Base.{ℕ, ◌+◌, ◌-◌, ◌*◌, ◌≤◌, ◌<◌, ◌≡◌, refl, ok, arith, ◌==◌, if◌then◌else◌, inl, ◌∙◌}
use zkrnl.Memory.Address.{div_ceil}
use zkrnl.Memory.Layout.{Layout, IsLinked}
use zkrnl.Memory.Frame.Bitmap.{FrameBitmap}
use zkrnl.Memory.Frame.Bitmap.Update.{frame_bit}
use zkrnl.Memory.Paging.Directory.{
  Build, alloc_frame, write_entry, map_kernel_page, map_low_page, init, pages_between, for_pages,
}
use zkrnl.Memory.Paging.Directory.Supply.{HasFrames, alloc_frame-Fresh}
use zkrnl.Memory.Paging.Directory.Invariant.{IsBuilt, write_entry_lem}
use zkrnl.Memory.Paging.Directory.Table.{
  Budget-start, Budget-left, bootstrap_frame_ptr-ok, zero_frame-ok, for_table-rw,
}
use zkrnl.Memory.Paging.Directory.Pages.{put_all, for_pages_lem}
use zkrnl.Memory.Paging.Directory.Init.{
  IsSmall, first, past, kernel_entry, low_entry, low-Handles, kernel-Handles,
}

-- The entry of each page after both loops.
abbrev pub entries : Layout → ℕ → ℕ
entries l = put_all low_entry 0 512 (put_all (kernel_entry l) (first l) (past l) (λ _. 0))

-- The new directory before the loops: zeroed, but for the recursive entry.
abbrev cleared : ℕ → FrameBitmap → (ℕ → ℕ → ℕ) → Build
cleared pd allocator memory = record {
  memory = write_entry (λ g. if g == pd then (λ _. 0) else memory g) pd 1023 (pd * 4096 + 3);
  allocator = allocator;
}

cleared-word :
    (pd : ℕ) (allocator : FrameBitmap) (memory : ℕ → ℕ → ℕ) (i : ℕ)
    → (cleared pd allocator memory).memory pd i ≡ (if i == 1023 then pd * 4096 + 3 else 0)
cleared-word pd allocator memory i =
    let zeroed : ℕ → ℕ → ℕ = λ g. if g == pd then (λ _. 0) else memory g in
    let zero_word : zeroed pd i ≡ 0 = ground arith in
    ground (arith, zero_word, write_entry_lem zeroed pd 1023 (pd * 4096 + 3) pd i)

cleared-IsBuilt :
    (pd : ℕ) (allocator : FrameBitmap) (memory : ℕ → ℕ → ℕ)
    → pd < 1024
    → frame_bit allocator.bitmap pd ≡ 0
    → IsBuilt pd (λ _. 0) (cleared pd allocator memory)
cleared-IsBuilt pd allocator memory low used =
    let word : (i : ℕ) → i < 1023 → (cleared pd allocator memory).memory pd i ≡ 0 =
      λ i p. cleared-word pd allocator memory i ∙ ground arith in
    record {
      low = low;
      used = used;
      self = cleared-word pd allocator memory 1023;
      slot = λ i p. inl (word i p, λ j q. refl);
      apart = λ i j p q ne set. absurd (set (word i p));
    }

pages_between_lem :
    (lo hi p q : ℕ) → lo ≡ p * 4096 → hi ≡ q * 4096 → p ≤ q → pages_between lo hi ≡ q - p
unfolding pages_between div_ceil
pages_between_lem lo hi p q from to h = ground arith

init-eq :
    (l : Layout) (s : Build) {pd : ℕ} {allocator : FrameBitmap} {image low : Build}
    → pd < 1024
    → alloc_frame s.allocator ≡ ok (pd, allocator)
    → for_pages
        (map_kernel_page l pd)
        (pages_between l.kernel_virt_start_addr l.kernel_virt_end_addr)
        l.kernel_virt_start_addr
        (cleared pd allocator s.memory)
      ≡ ok image
    → for_pages (map_low_page pd) (pages_between 0 l.kernel_phys_start_addr) 0 image ≡ ok low
    → init l s ≡ ok (pd, low)
unfolding init
init-eq l s {pd} in_range alloc kernel_loop low_loop = rw (
  alloc,
  zero_frame-ok s.memory pd in_range,
  bootstrap_frame_ptr-ok pd in_range,
  for_table-rw pd in_range,
  kernel_loop,
  low_loop,
)

-- With three frames free below 4 MiB, `init` does not fail, and leaves a built directory with the entries
-- of the image and of the low pages.
pub init-IsBuilt :
    (l : Layout) (s : Build)
    → IsLinked l
    → IsSmall l
    → HasFrames s.allocator 3
    → (pd : ℕ) × (s' : Build) × (init l s ≡ ok (pd, s')) × IsBuilt pd (entries l) s'
init-IsBuilt l s linked small frames =
    let (pd, allocator, e, fresh) = alloc_frame-Fresh s.allocator 2 frames in
    let start : Build = cleared pd allocator s.memory in
    let built : IsBuilt pd (λ _. 0) start =
      cleared-IsBuilt pd allocator s.memory fresh.low (fresh.bits pd ∙ ground arith) in
    let from : l.kernel_virt_start_addr ≡ first l * 4096 = omega arith in
    let to : l.kernel_virt_end_addr ≡ past l * 4096 = omega arith in
    let (image, e1, built1, budget1) =
      for_pages_lem pd 768 (first l) (past l) (kernel_entry l) (map_kernel_page l pd) 1
        (kernel-Handles l linked small pd 1) (past l - first l) (first l) l.kernel_virt_start_addr
        (λ _. 0) start from (omega arith) (omega arith) built
        (Budget-start pd 768 1 start fresh.more) in
    let (low, e2, built2, budget2) =
      for_pages_lem pd 0 0 512 low_entry (map_low_page pd) 0 (low-Handles pd 0) 512 0 0
        (put_all (kernel_entry l) (first l) (past l) (λ _. 0)) image (omega arith) (omega arith)
        (omega arith) built1 (Budget-start pd 0 0 image (Budget-left pd 768 1 image budget1)) in
    let rounds1 : pages_between l.kernel_virt_start_addr l.kernel_virt_end_addr ≡ past l - first l =
      pages_between_lem l.kernel_virt_start_addr l.kernel_virt_end_addr (first l) (past l) from to
        (omega arith) in
    let rounds2 : pages_between 0 l.kernel_phys_start_addr ≡ 512 =
      pages_between_lem 0 l.kernel_phys_start_addr 0 512 refl (omega arith) (omega arith) in
    (
      pd,
      low,
      init-eq l s {image = image} {low = low} fresh.low e (rw rounds1 e1) (rw rounds2 e2),
      built2,
    )
