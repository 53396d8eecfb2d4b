-- ===== src/Kernel/Agrees.antt =====
-- src/lib.rs: the two readings of `kernel_main`, with and without the display at a panic.
use zkrnl.Base.{
  ℕ, ◌≡◌, sym, ap, ◌∙◌, ok, bad_magic, Result, require, ◌==◌, ◌>>=◌, >>=-cong, >>=-assoc,
}
use zkrnl.Base.Action.{Action, join, pure, perform-more, compute-more, >>=-more}
use zkrnl.Multiboot.{MultibootInfo}
use zkrnl.Multiboot.Report.{print_memory_map}
use zkrnl.Multiboot.Report.Run.{report_run}
use zkrnl.Multiboot.Report.Agrees.{join-report_run}
use zkrnl.Memory.Address.{FrameNumber}
use zkrnl.Memory.Layout.{Layout}
use zkrnl.Memory.Paging.Directory.{Build}
use zkrnl.Memory.Paging.Switch.{ControlRegisters, load_directory}
use zkrnl.Memory.Boot.{init}
use zkrnl.Vga.{Display, clear, print}
use zkrnl.Vga.Sink.{vga_console}
use zkrnl.Kernel.{Machine, kernel_main, bootloader_magic}
use zkrnl.Kernel.Run.{kernel_run, finish, switch, memory, reporting, booting, clearing}
use zkrnl.Kernel.Start.{first_line, final_line}

-- The machine at the final loop.
abbrev pub online : Machine → (Build × ControlRegisters) × Display → Result Machine
online m ((build, registers), display) =
    ok (record m { display = display; build = build; registers = registers })

module _ (l : Layout) (bytes : ℕ → ℕ) (info : MultibootInfo) (m : Machine) where
  -- From a display on, to the machine.
  abbrev from : Action Display (Build × ControlRegisters) → Display → Result Machine
  from action d = join (action d) >>= online m

  from-switch :
      (pd : FrameNumber) (build : Build) (d : Display)
      → from (switch l bytes info m.build m.registers (pd, build)) d ≡ (
          load_directory pd m.registers >>= λ registers.
          print final_line d >>= λ d'. online m ((build, registers), d'))
  from-switch pd build d =
      compute-more (online m) (load_directory pd m.registers)
        (finish l bytes info m.build m.registers build) d
      ∙ >>=-cong (load_directory pd m.registers) _ _
          λ registers. perform-more (online m) (print final_line) (λ _. pure (build, registers)) d

  from-reporting :
      (d : Display)
      → from (reporting l bytes info m.build m.registers) d ≡ (
          print_memory_map vga_console bytes info d >>= λ d'.
          from (memory l bytes info m.build m.registers) d')
  from-reporting d =
      >>=-more (online m) (report_run vga_console bytes info)
        (λ _. memory l bytes info m.build m.registers) d
      ∙ ap (λ x. x >>= λ (u, d'). from (memory l bytes info m.build m.registers) d')
          (join-report_run vga_console bytes info d)
      ∙ >>=-assoc (print_memory_map vga_console bytes info d) (λ d'. ok (tt, d'))
          (λ (u, d'). from (memory l bytes info m.build m.registers) d')

  from-memory :
      (d : Display)
      → from (memory l bytes info m.build m.registers) d ≡ (
          init l bytes info m.build >>= λ (pd, build).
          load_directory pd m.registers >>= λ registers.
          print final_line d >>= λ d'. online m ((build, registers), d'))
  from-memory d =
      compute-more (online m) (init l bytes info m.build) (switch l bytes info m.build m.registers)
        d
      ∙ >>=-cong (init l bytes info m.build) _ _ λ (pd, build). from-switch pd build d

  -- `kernel_run` is `kernel_main`: they return or panic together, for the same reason, and where they
  -- return it is with the same machine.
  pub kernel_main-run :
      (magic : ℕ)
      → kernel_main l bytes magic info m
        ≡ (join (kernel_run l bytes magic info m.build m.registers m.display) >>= online m)
  unfolding kernel_main kernel_run
  kernel_main-run magic = sym (
      compute-more (online m) (require (magic == bootloader_magic) bad_magic)
        (λ _. clearing l bytes info m.build m.registers) m.display
      ∙ >>=-cong (require (magic == bootloader_magic) bad_magic) _ _ λ _.
        perform-more (online m) (λ d. ok (clear d)) (λ _. booting l bytes info m.build m.registers)
          m.display
        ∙ perform-more (online m) (print first_line)
            (λ _. reporting l bytes info m.build m.registers) (clear m.display)
        ∙ >>=-cong (print first_line (clear m.display)) _ _ λ d.
          from-reporting d
          ∙ >>=-cong (print_memory_map vga_console bytes info d) _ _ λ d'. from-memory d')
