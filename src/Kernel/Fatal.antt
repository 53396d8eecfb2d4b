-- ===== src/Kernel/Fatal.antt =====
-- src/lib.rs: `kernel_main` and the panic handler together, up to the loop that either ends in.
use zkrnl.Base.{
  ℕ, ◌+◌, ◌^◌, ◌≤◌, ◌<◌, ◌≡◌, ◌≢◌, ◌⊎◌, inl, inr, refl, ok, panic, fuel_spent, bad_magic, Fault,
  Result, require, ◌==◌, ◌>>=◌, Ends, of_ok, of_panic, false,
}
use zkrnl.Base.Action.{join, pure, compute, perform, >>=-Keeps}
use zkrnl.Text.{Bytes}
use zkrnl.Multiboot.{MultibootInfo}
use zkrnl.Multiboot.Report.Ready.{printk-Keeps, report_run-Keeps}
use zkrnl.Multiboot.Report.Run.{report_run}
use zkrnl.Memory.Layout.{Layout}
use zkrnl.Memory.Paging.Directory.{Build}
use zkrnl.Memory.Paging.Switch.{ControlRegisters, load_directory}
use zkrnl.Memory.Boot.{init}
use zkrnl.Stack.{StackBounds}
use zkrnl.Stack.Dump.{IsStack, Answers}
use zkrnl.Vga.{Display, clear, print, print_color}
use zkrnl.Vga.Screen.{IsOnScreen}
use zkrnl.Vga.Rows.{new_rows}
use zkrnl.Vga.Sink.{vga_console}
use zkrnl.Kernel.{Machine, kernel_main, panic_handler, bootloader_magic}
use zkrnl.Kernel.Run.{kernel_run, finish, switch, memory, reporting, clearing}
use zkrnl.Kernel.Agrees.{online, kernel_main-run}
use zkrnl.Kernel.Ends.{kernel_main-Ends}
use zkrnl.Kernel.Panic.{white_on_red, panic_text}
use zkrnl.Kernel.Start.{first_line, final_line, clear-IsOnScreen}
use zkrnl.Kernel.Visible.{StaysVisible, panic_handler-StaysVisible}

module _ (l : Layout) (bytes : ℕ → ℕ) (info : MultibootInfo) (build : Build)
    (registers : ControlRegisters) where
  memory-Keeps : (d : Display) → IsOnScreen d → IsOnScreen (memory l bytes info build registers d).1
  memory-Keeps d screen =
      >>=-Keeps IsOnScreen (compute (init l bytes info build)) (switch l bytes info build registers)
        d screen
        λ (pd, build') d₁ screen₁.
          >>=-Keeps IsOnScreen (compute (load_directory pd registers))
            (finish l bytes info build registers build') d₁ screen₁
            λ r d₂ screen₂.
              >>=-Keeps IsOnScreen (perform (print final_line)) (λ _. pure (build', r)) d₂
                (printk-Keeps vga_console final_line d₂ screen₂) λ _ d₃ screen₃. screen₃

  -- The cursor stays on the screen, also where the boot panics.
  kernel_run-IsOnScreen :
      (magic : ℕ) (d : Display)
      → IsOnScreen d
      → IsOnScreen (kernel_run l bytes magic info build registers d).1
  unfolding kernel_run
  kernel_run-IsOnScreen magic d screen =
      >>=-Keeps IsOnScreen (compute (require (magic == bootloader_magic) bad_magic))
        (λ _. clearing l bytes info build registers) d screen
        λ _ d₁ screen₁.
          >>=-Keeps IsOnScreen (perform (print first_line))
            (λ _. reporting l bytes info build registers) (clear d₁)
            (printk-Keeps vga_console first_line (clear d₁) (clear-IsOnScreen d₁ screen₁))
            λ _ d₂ screen₂.
              >>=-Keeps IsOnScreen (report_run vga_console bytes info)
                (λ _. memory l bytes info build registers) d₂
                (report_run-Keeps vga_console bytes info d₂ screen₂)
                λ _ d₃ screen₃. memory-Keeps d₃ screen₃

-- What the panic handler shows of a fault, on a display and with the rest of the machine in any state: it
-- halts, and its text stays on the screen.
abbrev pub Reports : StackBounds → (ℕ → Result ℕ) → ℕ → Bytes → Display → Type 0
Reports stack load esp message d =
    (build : Build) (registers : ControlRegisters)
    → (m' : Machine) × (panic_handler stack load esp message
          (record { display = d; build = build; registers = registers; panicking = false })
        ≡ ok m')
      × ((shown : Display) × (print_color white_on_red (panic_text message) d ≡ ok shown)
          × StaysVisible (2 + new_rows message 0) white_on_red shown m'.display)

-- The two ends of the boot: the final loop, or a panic for one of the code's own reasons, at a display
-- on which the panic handler then shows its text.
abbrev pub Outcome :
    Result Machine
    → Result (Build × ControlRegisters) × Display
    → (Fault → Display → Type 0)
    → Type 0
Outcome main run Shown =
    ((m' : Machine) × (main ≡ ok m') × IsOnScreen m'.display)
    ⊎ ((e : Fault) × (d : Display) × (main ≡ panic e)
        × (run ≡ (panic e, d))
        × (e ≢ fuel_spent)
        × Shown e d)

kernel_run-Outcome :
    (main : Result Machine) (m : Machine) (run : Result (Build × ControlRegisters) × Display)
    (Shown : Fault → Display → Type 0)
    → main ≡ (join run >>= online m)
    → Ends (λ (m' : Machine). IsOnScreen m'.display) main
    → ((e : Fault) → Shown e run.1)
    → Outcome main run Shown
kernel_run-Outcome main m (ok (build, registers), d) Shown same ends shown =
    inl (
      record m { display = d; build = build; registers = registers },
      same,
      of_ok (rw same at ends),
    )
kernel_run-Outcome main m (panic e, d) Shown same ends shown =
    inr (e, d, same, refl, of_panic (rw same at ends), shown e)

-- Both ends of the boot, on any memory that answers the reads of the stack.
pub kernel_main-Outcome :
    (l : Layout) (bytes : ℕ → ℕ) (magic : ℕ) (info : MultibootInfo) (m : Machine)
    (stack : StackBounds) (load : ℕ → Result ℕ) (words : ℕ → ℕ) (esp : ℕ) (text : Fault → Bytes)
    → info.mmap_length < 2 ^ 32
    → IsOnScreen m.display
    → IsStack stack
    → Answers stack load words
    → ((a : ℕ) → words a < 2 ^ 32)
    → esp < 2 ^ 32
    → ((e : Fault) → new_rows (text e) 0 ≤ 5)
    → Outcome
        (kernel_main l bytes magic info m)
        (kernel_run l bytes magic info m.build m.registers m.display)
        (λ e d. Reports stack load esp (text e) d)
kernel_main-Outcome l bytes magic info m stack load words esp text short screen is_stack answers u32
      inside few =
    kernel_run-Outcome _ m _ _ (kernel_main-run l bytes info m magic)
      (kernel_main-Ends l bytes magic info m short screen)
      λ e build registers.
        panic_handler-StaysVisible stack load words esp (text e) _ is_stack answers u32 inside
          (kernel_run-IsOnScreen l bytes info m.build m.registers magic m.display screen) refl
          (few e)
