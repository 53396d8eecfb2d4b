-- ===== src/Memory/Paging/Running.antt =====
-- What stays mapped after the switch to the new directory: the comment at the closing assembly of
-- `paging::init` in src/memory/paging.rs.
use zkrnl.Base.{
  ℕ, ◌+◌, ◌-◌, ◌*◌, ◌/◌, ◌%◌, ◌^◌, ◌≤◌, ◌<◌, ◌≡◌, ◌∙◌, ok, arith, Option, none, some, ◌⊎◌,
}
use zkrnl.Gdt.{gdt_base, gdt_entry_count}
use zkrnl.Vga.{vga_buffer, vga_width, vga_height}
use zkrnl.Memory.Layout.{Layout, IsLinked, kernel_virtual_base}
use zkrnl.Memory.Paging.Translate.{translate, Translation}
use zkrnl.Memory.Paging.Directory.{Build, init}
use zkrnl.Memory.Paging.Directory.Supply.{HasFrames}
use zkrnl.Memory.Paging.Directory.Init.{IsSmall}
use zkrnl.Memory.Paging.Directory.Loaded.{kernel_view, init-translate}

-- A page that leads to physical address `p`, read-only or writable.
abbrev pub leads_to : ℕ → ℕ → Option Translation
leads_to p writable = some (record { phys = p; writable = writable })

kernel_view-low : (l : Layout) (v : ℕ) → v < 0x20_0000 → kernel_view l v ≡ leads_to v 1
kernel_view-low l v low = ground arith

kernel_view-text :
    (l : Layout) (v : ℕ)
    → IsLinked l
    → l.kernel_virt_start_addr ≤ v
    → v < l.kernel_data_start_addr
    → kernel_view l v ≡ leads_to (v - kernel_virtual_base) 0
kernel_view-text l v linked above below = ground arith

kernel_view-data :
    (l : Layout) (v : ℕ)
    → IsLinked l
    → l.kernel_data_start_addr ≤ v
    → v < l.kernel_virt_end_addr
    → (v < l.stack_guard_addr) ⊎ (l.stack_guard_addr + 4096 ≤ v)
    → kernel_view l v ≡ leads_to (v - kernel_virtual_base) 1
kernel_view-data l v linked above below apart = ground arith

kernel_view-guard :
    (l : Layout) (v : ℕ)
    → IsLinked l
    → l.stack_guard_addr ≤ v
    → v < l.stack_guard_addr + 4096
    → kernel_view l v ≡ none
kernel_view-guard l v linked above below = ground arith

-- The last slot holds the directory itself, so the last page of the address space is the directory.
translate_self :
    (memory : ℕ → ℕ → ℕ) (pd v : ℕ)
    → pd < 2 ^ 20
    → memory pd 1023 ≡ pd * 4096 + 3
    → 0xFFFF_F000 ≤ v
    → v < 2 ^ 32
    → translate (memory pd) memory v ≡ leads_to (pd * 4096 + v % 4096) 1
unfolding translate
translate_self memory pd v small self above below =
    let slot : v / 2 ^ 22 ≡ 1023 = omega arith in
    let page : v / 2 ^ 12 % 2 ^ 10 ≡ 1023 = omega arith in
    let back : (pd * 4096 + 3) / 2 ^ 12 ≡ pd = omega arith in
    rw (translate, slot, page, self, back, self, back) (ground arith)

-- With a linked image that ends within the first 4 MiB, and three free frames below 4 MiB that the search
-- reaches, the directory that `init` loads maps what the comment at the switch names. Every byte of the
-- text buffer of src/vga.rs and of the descriptor table of src/gdt.rs leads, writable, to its own address.
-- Every byte of code leads, read-only, and every byte of data up to the guard page, and of the stack and
-- what follows it above the guard page, leads, writable, to the image in physical memory. The guard page
-- leads nowhere. The last page of the address space is the directory itself, writable.
pub init_keeps_running :
    (l : Layout) (s : Build)
    → IsLinked l
    → IsSmall l
    → HasFrames s.allocator 3
    → (pd : ℕ) × (s' : Build) × (init l s ≡ ok (pd, s'))
      × ((i : ℕ)
          → i < 2 * vga_width * vga_height
          → translate (s'.memory pd) s'.memory (vga_buffer + i) ≡ leads_to (vga_buffer + i) 1)
      × ((i : ℕ)
          → i < 8 * gdt_entry_count
          → translate (s'.memory pd) s'.memory (gdt_base + i) ≡ leads_to (gdt_base + i) 1)
      × ((v : ℕ)
          → l.kernel_virt_start_addr ≤ v
          → v < l.kernel_data_start_addr
          → translate (s'.memory pd) s'.memory v ≡ leads_to (v - kernel_virtual_base) 0)
      × ((v : ℕ)
          → l.kernel_data_start_addr ≤ v
          → v < l.kernel_virt_end_addr
          → (v < l.stack_guard_addr) ⊎ (l.stack_guard_addr + 4096 ≤ v)
          → translate (s'.memory pd) s'.memory v ≡ leads_to (v - kernel_virtual_base) 1)
      × ((v : ℕ)
          → l.stack_guard_addr ≤ v
          → v < l.stack_guard_addr + 4096
          → translate (s'.memory pd) s'.memory v ≡ none)
      × ((v : ℕ)
          → 0xFFFF_F000 ≤ v
          → v < 2 ^ 32
          → translate (s'.memory pd) s'.memory v ≡ leads_to (pd * 4096 + v % 4096) 1)
init_keeps_running l s linked small frames =
    let (pd, s', e, low, view, self) = init-translate l s linked small frames in
    (
      pd,
      s',
      e,
      λ i h. view (vga_buffer + i) (omega arith) ∙ kernel_view-low l (vga_buffer + i) (omega arith),
      λ i h. view (gdt_base + i) (omega arith) ∙ kernel_view-low l (gdt_base + i) (omega arith),
      λ v above below. view v (omega arith) ∙ kernel_view-text l v linked above below,
      λ v above below apart. view v (omega arith) ∙ kernel_view-data l v linked above below apart,
      λ v above below. view v (omega arith) ∙ kernel_view-guard l v linked above below,
      λ v above below. translate_self s'.memory pd v (omega arith) self above below,
    )
