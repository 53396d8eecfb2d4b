-- ===== src/Kernel/Early.antt =====
-- src/lib.rs, src/memory/paging.rs and boot/boot.asm: a panic of `kernel_main`, whose stack is still read
-- through the bootstrap page directory.
use zkrnl.Base.{ℕ, ◌-◌, ◌^◌, ◌≤◌, ◌<◌, ◌≡◌, ◌∙◌, ok, Fault, arith, some}
use mathlib.Core.Path.{subst}
use zkrnl.Text.{Bytes}
use zkrnl.Multiboot.{MultibootInfo}
use zkrnl.Memory.Layout.{Layout, IsLinked, kernel_virtual_base}
use zkrnl.Memory.Paging.Translate.{translate}
use zkrnl.Memory.Paging.Directory.{bootstrap}
use zkrnl.Memory.Paging.Directory.Boot.{bootstrap-translate}
use zkrnl.Memory.Paging.Directory.Init.{IsSmall}
use zkrnl.Stack.{StackBounds}
use zkrnl.Stack.Dump.{Answers}
use zkrnl.Vga.Screen.{IsOnScreen}
use zkrnl.Vga.Rows.{new_rows}
use zkrnl.Kernel.{Machine, kernel_main}
use zkrnl.Kernel.Run.{kernel_run}
use zkrnl.Kernel.Fatal.{Outcome, Reports, kernel_main-Outcome}
use zkrnl.Kernel.Mapped.{IsReserved, read_by}

-- The stack, through the bootstrap directory.
bootstrap-Answers :
    (l : Layout) (b : StackBounds) (directory : ℕ → ℕ) (tables : ℕ → ℕ → ℕ) (dwords : ℕ → ℕ)
    → IsLinked l
    → IsSmall l
    → IsReserved l b
    → bootstrap ≡ ok directory
    → Answers b (read_by directory tables dwords) (λ a. dwords (a - kernel_virtual_base))
bootstrap-Answers l b directory tables dwords linked small reserved built a aligned above below =
    let (d, e, walk) = bootstrap-translate in
    let same : d ≡ directory = ground arith in
    let leads : translate d tables a
        ≡ some (record { phys = a - kernel_virtual_base; writable = 1 }) =
      walk tables a ∙ ground arith in
    let leads' =
      subst
        (λ x. translate x tables a ≡ some (record { phys = a - kernel_virtual_base; writable = 1 }))
        same leads in
    rw (read_by, leads')

-- Wherever the boot goes, the user sees it. With the cursor on the screen, a 32-bit length of the memory
-- map, a linked image that ends within the first 4 MiB, the stack where the boot stub reserves it, and
-- texts of the faults that begin at most five rows, `kernel_main` either reaches its final loop with the
-- cursor on the screen, or panics for a reason of its own, at a display on which the panic handler,
-- entered next with whatever else the boot has left, halts with its banner and the text of that fault
-- still on the screen after the dump. The handler reads the stack through the bootstrap directory, from
-- any physical memory of 32-bit words, and takes no page fault.
pub kernel_main_early :
    (l : Layout) (bytes : ℕ → ℕ) (magic : ℕ) (info : MultibootInfo) (m : Machine) (b : StackBounds)
    (directory : ℕ → ℕ) (tables : ℕ → ℕ → ℕ) (dwords : ℕ → ℕ) (esp : ℕ) (text : Fault → Bytes)
    → info.mmap_length < 2 ^ 32
    → IsOnScreen m.display
    → IsLinked l
    → IsSmall l
    → IsReserved l b
    → bootstrap ≡ ok directory
    → ((a : ℕ) → dwords a < 2 ^ 32)
    → esp < 2 ^ 32
    → ((e : Fault) → new_rows (text e) 0 ≤ 5)
    → Outcome
        (kernel_main l bytes magic info m)
        (kernel_run l bytes magic info m.build m.registers m.display)
        (λ e d. Reports b (read_by directory tables dwords) esp (text e) d)
kernel_main_early l bytes magic info m b directory tables dwords esp text short screen linked small
      reserved built u32 inside few =
    kernel_main-Outcome l bytes magic info m b (read_by directory tables dwords)
      (λ a. dwords (a - kernel_virtual_base)) esp text short screen
      (record { ordered = omega arith; in_address_space = omega arith })
      (bootstrap-Answers l b directory tables dwords linked small reserved built) (λ a. u32 _)
      inside few
