-- ===== src/Kernel.antt =====
-- src/lib.rs: `kernel_main`, up to the loop that it ends in, and the panic handler, up to the halt.
pub mod Start
pub mod Panic
pub mod Ends
pub mod Mapped
pub mod Visible
pub mod Run
pub mod Agrees
pub mod Fatal
pub mod Early
pub mod Shown
use zkrnl.Base.{ℕ, ok, bad_magic, Result, require, ◌==◌, Bool, true, false, ◌>>=◌, ◌++◌, ◌>>◌}
use zkrnl.Text.{Bytes, codes}
use zkrnl.Multiboot.{MultibootInfo}
use zkrnl.Multiboot.Report.{print_memory_map}
use zkrnl.Memory.Layout.{Layout}
use zkrnl.Memory.Paging.Directory.{Build}
use zkrnl.Memory.Paging.Switch.{ControlRegisters, load_directory}
use zkrnl.Memory.Boot.{init}
use zkrnl.Stack.{StackBounds, dump_stack}
use zkrnl.Vga.{Display, clear, print, print_color}
use zkrnl.Vga.Color.{Color, on}
use zkrnl.Vga.Sink.{vga_console}

abbrev pub bootloader_magic : ℕ
bootloader_magic = 0x2BAD_B002

-- What the kernel changes: the console, physical memory with the frame allocator, the control registers
-- and the flag of the panic handler.
pub record Machine : Type 0 where
  pub display : Display
  pub build : Build
  pub registers : ControlRegisters
  pub panicking : Bool

-- `kernel_main` until it spins, on the information structure and the bytes that the loader left. The
-- switch to the new directory is the end of `memory::init`.
unfoldable pub kernel_main : Layout → (ℕ → ℕ) → ℕ → MultibootInfo → Machine → Result Machine
unfolding print
kernel_main l bytes magic info m = do
  require (magic == bootloader_magic) bad_magic
  booting ← print (codes "zkrnl32 booting\n") (clear m.display)
  reported ← print_memory_map vga_console bytes info booting
  init l bytes info m.build >>= λ (pd, build). do
    registers ← load_directory pd m.registers
    online ← print (codes "memory: paging active, frame allocator online\n") reported
    ok (record m { display = online; build = build; registers = registers })

-- The panic handler until it halts, on the text of the panic and the stack pointer. `swap` returns the old
-- value of the flag.
unfoldable pub panic_handler : StackBounds → (ℕ → Result ℕ) → ℕ → Bytes → Machine → Result Machine
unfolding print_color on
panic_handler stack load esp message m = elim m.panicking [
  | true ↦ ok m
  | false ↦
      let entered : Machine = record m { panicking = true } in
      do
        shown ←
            print_color (on Color.white Color.red)
              (codes "\nKERNEL PANIC\n" ++ (message ++ codes "\n")) entered.display
        dumped ← dump_stack vga_console load stack esp 16 shown
        ok (record entered { display = dumped })
]
