-- ===== src/Kernel/Panic.antt =====
-- The fatal-error path: what the panic handler shows, and its guard against re-entry.
use zkrnl.Base.{
  ℕ, ◌≡◌, ◌≢◌, refl, ok, panic, no_memory_map, bad_magic, Result, arith, ◌==◌, if◌then◌else◌, inl,
  inr, true, false, Bool-cases, ◌⊎◌, none, ◌++◌, ◌∙◌,
}
use zkrnl.Text.{Bytes, codes}
use zkrnl.Multiboot.{MultibootInfo, memory_map}
use zkrnl.Multiboot.Report.Shown.{print_memory_map-none, no_map_text}
use zkrnl.Multiboot.Report.{print_memory_map}
use zkrnl.Memory.Layout.{Layout}
use zkrnl.Memory.Boot.{init}
use zkrnl.Stack.{StackBounds, dump_stack_from}
use zkrnl.Stack.Dump.{IsStack, Answers, dump_text, dump_stack_from-Shows}
use zkrnl.Vga.{Display, clear, print, print_color}
use zkrnl.Vga.Screen.{IsOnScreen}
use zkrnl.Vga.Color.{Color, color_bits, on}
use zkrnl.Memory.Paging.Directory.{Build}
use zkrnl.Kernel.Start.{first_line, clear-IsOnScreen}
use zkrnl.Vga.Terminal.{print_color_lem}
use zkrnl.Vga.Sink.{vga_console, print-IsOnScreen, print_color-IsOnScreen}
use zkrnl.Kernel.{Machine, kernel_main, panic_handler, bootloader_magic}

abbrev pub panic_text : Bytes → Bytes
panic_text message = codes "\nKERNEL PANIC\n" ++ (message ++ codes "\n")

panic_handler-again :
    (stack : StackBounds) (load : ℕ → Result ℕ) (esp : ℕ) (message : Bytes) (m : Machine)
    → m.panicking ≡ true
    → panic_handler stack load esp message m ≡ ok m
unfolding panic_handler
panic_handler-again stack load esp message m e = ground arith

panic_handler-eq :
    (stack : StackBounds) (load : ℕ → Result ℕ) (esp : ℕ) (message : Bytes) (m : Machine)
    {shown dumped : Display}
    → m.panicking ≡ false
    → print_color (on Color.white Color.red) (panic_text message) m.display ≡ ok shown
    → dump_stack_from vga_console load stack esp 16 shown ≡ ok dumped
    → panic_handler stack load esp message m ≡ ok (record m { display = dumped; panicking = true })
unfolding panic_handler
panic_handler-eq stack load esp message m e print_e dump_e = rw (panic_handler, e, print_e, dump_e)

-- A cell's attribute of the text mode: the foreground in the low half, 15 for white, and the background in
-- the high half, 4 for red.
abbrev pub white_on_red : ℕ
white_on_red = 0x4F

on-white_on_red : on Color.white Color.red ≡ white_on_red
unfolding on color_bits
on-white_on_red = refl

-- With the cursor on the screen, and memory that answers no more than the aligned reads inside the
-- stack, the panic handler reaches its halt on any stack pointer and message. Entered for the first time
-- it shows the panic in the attribute 0x4F, white on red, and then the dump of up to 16 dwords in the writer's own color, and
-- sets the flag. Entered again from the state that it left, it changes nothing at all.
pub panic_handler-halts :
    (stack : StackBounds) (load : ℕ → Result ℕ) (words : ℕ → ℕ) (esp : ℕ) (message : Bytes)
    (m : Machine)
    → IsStack stack
    → Answers stack load words
    → IsOnScreen m.display
    → m.panicking ≡ false
    → (m' : Machine) × (panic_handler stack load esp message m ≡ ok m')
      × ((d : Display) × (print_color white_on_red (panic_text message) m.display ≡ ok d)
          × (d.writer.color ≡ m.display.writer.color)
          × (print (dump_text stack words esp 16) d ≡ ok m'.display))
      × IsOnScreen m'.display
      × (m'.build ≡ m.build)
      × ((esp' : ℕ) (message' : Bytes) → panic_handler stack load esp' message' m' ≡ ok m')
panic_handler-halts stack load words esp message m is_stack answers on_screen first =
    let (d, e, kept, on', outside, typed) =
      print_color_lem (on Color.white Color.red) (panic_text message) m.display on_screen in
    let (d', dumped, shows) =
      dump_stack_from-Shows vga_console load stack words answers is_stack esp 16 d on' in
    let m' : Machine = record m { display = d'; panicking = true } in
    (
      m',
      panic_handler-eq stack load esp message m first e dumped,
      (d, rw (← on-white_on_red) e, kept, shows.0),
      shows.1,
      refl,
      λ esp' message'. panic_handler-again stack load esp' message' m' refl,
    )

pub init-none :
    (l : Layout) (bytes : ℕ → ℕ) (info : MultibootInfo) (s : Build)
    → memory_map bytes info ≡ none
    → init l bytes info s ≡ panic no_memory_map
unfolding init
init-none l bytes info s absent = rw (init, absent)

-- With the cursor on the screen, `kernel_main` panics with the bad magic number on any other than the
-- loader's, and without a memory map panics with that.
kernel_main-panic :
    (l : Layout) (bytes : ℕ → ℕ) (magic : ℕ) (info : MultibootInfo) (m : Machine)
    → IsOnScreen m.display
    → (magic ≢ bootloader_magic) ⊎ (memory_map bytes info ≡ none)
    → kernel_main l bytes magic info m
      ≡ panic (if magic == bootloader_magic then no_memory_map else bad_magic)
unfolding kernel_main
kernel_main-panic l bytes magic info m on_screen cause =
    elim (Bool-cases (magic == bootloader_magic)) [
      | inr other ↦ rw other
      | inl same ↦
          let absent : memory_map bytes info ≡ none = ground arith in
          let (d₁, e₁, on₁) =
            print-IsOnScreen first_line (clear m.display) (clear-IsOnScreen m.display on_screen) in
          let (d₂, e₂, on₂) =
            print_color-IsOnScreen (color_bits Color.yellow) (no_map_text) d₁ on₁ in
          let warned : print_memory_map vga_console bytes info d₁ ≡ ok d₂ =
            print_memory_map-none vga_console bytes info d₁ absent ∙ e₂ in
          rw (same, e₁, warned, init-none l bytes info m.build absent)
    ]
