-- ===== src/Kernel/Mapped.antt =====
-- The stack (src/stack.rs) as the page directory maps it (src/memory/paging.rs): the panic handler reads it
-- through the page tables.
use zkrnl.Base.{
  ℕ, ◌+◌, ◌-◌, ◌/◌, ◌^◌, ◌≤◌, ◌<◌, ◌≡◌, ◌∙◌, ok, panic, page_fault, Result, arith, false, none,
  some,
}
use zkrnl.Text.{Bytes}
use zkrnl.Memory.Layout.{Layout, IsLinked, kernel_virtual_base}
use zkrnl.Memory.Paging.Translate.{translate}
use zkrnl.Memory.Paging.Directory.Init.{IsSmall}
use zkrnl.Memory.Paging.Directory.Loaded.{kernel_view}
use zkrnl.Stack.{StackBounds}
use zkrnl.Stack.Dump.{IsStack, Answers, dump_text}
use zkrnl.Vga.{Display, print, print_color}
use zkrnl.Vga.Screen.{IsOnScreen}
use zkrnl.Kernel.{Machine, panic_handler}
use zkrnl.Kernel.Panic.{white_on_red, panic_text, panic_handler-halts}

-- What boot/boot.asm reserves: the guard page, right above it the stack of 64 KiB, within the image.
pub record IsReserved (l : Layout) (b : StackBounds) : Type 0 where
  pub after_guard : b.stack_bottom_addr ≡ l.stack_guard_addr + 4096
  pub size : b.stack_top_addr ≡ b.stack_bottom_addr + 65536
  pub inside : b.stack_top_addr ≤ l.kernel_virt_end_addr

-- The processor's read of an aligned dword at `v`, by a directory, the page tables by their frames, and
-- the dwords of physical memory by their address.
abbrev pub read_by : (ℕ → ℕ) → (ℕ → ℕ → ℕ) → (ℕ → ℕ) → ℕ → Result ℕ
read_by directory tables dwords v = elim (translate directory tables v) [
  | none ↦ panic page_fault
  | some t ↦ ok (dwords t.phys)
]

-- The same by the directory that `CR3` names.
abbrev pub read_through : Machine → (ℕ → ℕ) → ℕ → Result ℕ
read_through m dwords v = read_by (m.build.memory (m.registers.cr3 / 4096)) m.build.memory dwords v

module _ (l : Layout) (b : StackBounds) (linked : IsLinked l) (reserved : IsReserved l b) where
  kernel_view-stack :
      (v : ℕ)
      → b.stack_bottom_addr ≤ v
      → v < b.stack_top_addr
      → kernel_view l v ≡ some (record { phys = v - kernel_virtual_base; writable = 1 })
  kernel_view-stack v above below = ground arith

  kernel_view-guard :
      (v : ℕ) → l.stack_guard_addr ≤ v → v < l.stack_guard_addr + 4096 → kernel_view l v ≡ none
  kernel_view-guard v above below = ground arith

-- With the stack where the boot stub reserves it, in a linked image that ends within the first 4 MiB, on a
-- machine whose page tables implement the kernel's view below the last slot, with the cursor on the screen
-- and no panic before: the panic handler, reading the stack through the page tables, takes no page fault
-- and reaches its halt, for any stack pointer and message. It shows the panic in white on red and then the
-- dump of the stack from physical memory. A read in the guard page below the stack does fault.
pub panic_handler-mapped :
    (l : Layout) (b : StackBounds) (m : Machine) (dwords : ℕ → ℕ) (esp : ℕ) (message : Bytes)
    → IsLinked l
    → IsSmall l
    → IsReserved l b
    → ((v : ℕ)
        → v / 2 ^ 22 < 1023
        → translate (m.build.memory (m.registers.cr3 / 4096)) m.build.memory v ≡ kernel_view l v)
    → IsOnScreen m.display
    → m.panicking ≡ false
    → ((m' : Machine) × (panic_handler b (read_through m dwords) esp message m ≡ ok m')
        × ((d : Display) × (print_color white_on_red (panic_text message) m.display ≡ ok d)
            × (print (dump_text b (λ a. dwords (a - kernel_virtual_base)) esp 16) d
                ≡ ok m'.display)))
      × ((v : ℕ)
          → l.stack_guard_addr ≤ v
          → v < l.stack_guard_addr + 4096
          → read_through m dwords v ≡ panic page_fault)
panic_handler-mapped l b m dwords esp message linked small reserved view on_screen first =
    let is_stack : IsStack b = record { ordered = omega arith; in_address_space = omega arith } in
    let mapped : Answers b (read_through m dwords) (λ a. dwords (a - kernel_virtual_base)) =
      λ a aligned above below.
        let leads =
          view a (omega arith) ∙ kernel_view-stack l b linked reserved a above (omega arith) in
        rw (read_by, leads) in
    let (m', e, (d, shown, color, dumped), on', same, again) =
      panic_handler-halts b (read_through m dwords) _ esp message m is_stack mapped on_screen
        first in
    (
      (m', e, (d, shown, dumped)),
      λ v above below.
          let leads = view v (omega arith) ∙ kernel_view-guard l b linked reserved v above below in
          rw (read_by, leads),
    )
