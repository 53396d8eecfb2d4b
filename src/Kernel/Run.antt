-- ===== src/Kernel/Run.antt =====
-- src/lib.rs: `kernel_main` as an action on the display, which outlives a panic and which the panic
-- handler then takes over. It returns what memory and the control registers are at the final loop.
use zkrnl.Base.{ℕ, ok, bad_magic, require, ◌==◌}
use zkrnl.Base.Action.{Action, ◌>>=◌, ◌>>◌, pure, compute, perform}
use zkrnl.Text.{codes}
use zkrnl.Multiboot.{MultibootInfo}
use zkrnl.Multiboot.Report.Run.{report_run}
use zkrnl.Memory.Address.{FrameNumber}
use zkrnl.Memory.Layout.{Layout}
use zkrnl.Memory.Paging.Directory.{Build}
use zkrnl.Memory.Paging.Switch.{ControlRegisters, load_directory}
use zkrnl.Memory.Boot.{init}
use zkrnl.Vga.{Display, clear, print}
use zkrnl.Vga.Sink.{vga_console}
use zkrnl.Kernel.{bootloader_magic}
use zkrnl.Kernel.Start.{first_line, final_line}

unfoldable pub kernel_run :
    Layout
    → (ℕ → ℕ)
    → ℕ
    → MultibootInfo
    → Build
    → ControlRegisters
    → Action Display (Build × ControlRegisters)
unfolding print
kernel_run l bytes magic info build registers = do
  compute (require (magic == bootloader_magic) bad_magic)
  perform (λ d. ok (clear d))
  perform (print (codes "zkrnl32 booting\n"))
  report_run vga_console bytes info
  compute (init l bytes info build) >>= λ (pd, build'). do
    registers' ← compute (load_directory pd registers)
    perform (print (codes "memory: paging active, frame allocator online\n"))
    pure (build', registers')

-- Its tails, each from one of its steps on.
module _ (l : Layout) (bytes : ℕ → ℕ) (info : MultibootInfo) (build : Build)
    (registers : ControlRegisters) where
  abbrev pub finish : Build → ControlRegisters → Action Display (Build × ControlRegisters)
  finish build' registers' = do perform (print final_line); pure (build', registers')

  abbrev pub switch : FrameNumber × Build → Action Display (Build × ControlRegisters)
  switch (pd, build') = compute (load_directory pd registers) >>= finish build'

  abbrev pub memory : Action Display (Build × ControlRegisters)
  memory = compute (init l bytes info build) >>= switch

  abbrev pub reporting : Action Display (Build × ControlRegisters)
  reporting = do report_run vga_console bytes info; memory

  abbrev pub booting : Action Display (Build × ControlRegisters)
  booting = do perform (print first_line); reporting

  abbrev pub clearing : Action Display (Build × ControlRegisters)
  clearing = do perform (λ d. ok (clear d)); booting
