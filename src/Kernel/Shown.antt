-- ===== src/Kernel/Shown.antt =====
-- src/lib.rs: what the screen shows when `kernel_main` reaches its final loop or panics.
use zkrnl.Base.{
  ℕ, ◌^◌, ◌<◌, ◌≡◌, ◌≢◌, refl, sym, ap, ◌∙◌, List, ok, panic, overflow, bad_magic, no_memory_map,
  Fault, Result, true, false, Option-cases, inl, inr, none, some, length, ◌++◌, arith, ◌>>=◌, Bool,
}
use zkrnl.Base.Action.{
  Action, compute, perform, pure, after_ok, after_panic, perform-ok, Result-cases,
  ◌>>=◌ as and_then,
}
use mathlib.Core.Path.{subst}
use native.Mathlib.Decide.{ℕ_discrete}
use zkrnl.Console.{Shows-append}
use zkrnl.Multiboot.{MultibootInfo, MemoryRegion, MemoryMap, memory_map}
use zkrnl.Multiboot.Walk.{Yields, for_regions-each}
use zkrnl.Multiboot.Total.{length-memory_map}
use zkrnl.Multiboot.Report.Run.{report_run}
use zkrnl.Multiboot.Report.Shown.{lines, report, no_map_text}
use zkrnl.Multiboot.Report.Broken.{title, report_run-none, report_run-ok, report_run-overflow}
use zkrnl.Memory.Layout.{Layout}
use zkrnl.Memory.Address.{FrameNumber}
use zkrnl.Memory.Paging.Directory.{Build}
use zkrnl.Memory.Paging.Switch.{ControlRegisters, load_directory}
use zkrnl.Memory.Boot.{init}
use zkrnl.Vga.{Display, clear, print, print_color}
use zkrnl.Vga.Color.{Color, color_bits}
use zkrnl.Vga.Screen.{IsOnScreen}
use zkrnl.Vga.Sink.{vga_console, print-IsOnScreen, print_color-IsOnScreen}
use zkrnl.Kernel.{bootloader_magic}
use zkrnl.Kernel.Panic.{init-none}
use zkrnl.Kernel.Run.{kernel_run, finish, switch, memory, reporting}
use zkrnl.Kernel.Start.{first_line, final_line, clear-IsOnScreen}

module _ (l : Layout) (bytes : ℕ → ℕ) (info : MultibootInfo) (build : Build)
    (registers : ControlRegisters) where
  -- `memory::init` with the switch to its directory.
  abbrev pub paired : Build → Result ControlRegisters → Result (Build × ControlRegisters)
  paired build' loaded = loaded >>= λ registers'. ok (build', registers')

  abbrev pub loaded : Result (FrameNumber × Build) → Result (Build × ControlRegisters)
  loaded built = built >>= λ (pd, build'). paired build' (load_directory pd registers)

  abbrev pub settled : Result (Build × ControlRegisters)
  settled = loaded (init l bytes info build)

  -- How a boot from a display ends, and what it has shown by then.
  pub data Boots (magic : ℕ) (d : Display)
      : Result (Build × ControlRegisters) × Display → Type 0 where
    refused : magic ≢ bootloader_magic → Boots magic d (panic bad_magic, d)
    unmapped :
        {d₁ d' : Display}
        → magic ≡ bootloader_magic
        → memory_map bytes info ≡ none
        → print first_line (clear d) ≡ ok d₁
        → print_color (color_bits Color.yellow) no_map_text d₁ ≡ ok d'
        → Boots magic d (panic no_memory_map, d')
    broken :
        {d' : Display} (m : MemoryMap) (rs : List MemoryRegion)
        → magic ≡ bootloader_magic
        → memory_map bytes info ≡ some m
        → Yields m rs false
        → print (first_line ++ (title ++ lines rs)) (clear d) ≡ ok d'
        → Boots magic d (panic overflow, d')
    failed :
        {d' : Display} {e : Fault} (m : MemoryMap) (rs : List MemoryRegion)
        → magic ≡ bootloader_magic
        → memory_map bytes info ≡ some m
        → Yields m rs true
        → settled ≡ panic e
        → print (first_line ++ report rs) (clear d) ≡ ok d'
        → Boots magic d (panic e, d')
    started :
        {d' : Display} {r : Build × ControlRegisters} (m : MemoryMap) (rs : List MemoryRegion)
        → magic ≡ bootloader_magic
        → memory_map bytes info ≡ some m
        → Yields m rs true
        → settled ≡ ok r
        → print (first_line ++ (report rs ++ final_line)) (clear d) ≡ ok d'
        → Boots magic d (ok r, d')

  -- The last steps, by the results of their two calls.
  module _ (d : Display) where
    switched-panic :
        (build' : Build) (r : Result ControlRegisters) {e : Fault}
        → paired build' r ≡ panic e
        → and_then (compute r) (finish l bytes info build registers build') d ≡ (panic e, d)
    switched-panic build' (panic e') h = ap (λ (x : Result (Build × ControlRegisters)). (x, d)) h
    switched-panic build' (ok registers') h = absurd cc

    memory-panic :
        (r : Result (FrameNumber × Build)) {e : Fault}
        → loaded r ≡ panic e
        → and_then (compute r) (switch l bytes info build registers) d ≡ (panic e, d)
    memory-panic (panic e') h = ap (λ (x : Result (Build × ControlRegisters)). (x, d)) h
    memory-panic (ok (pd, build')) h = switched-panic build' (load_directory pd registers) h

    module _ {d' : Display} (shown : print final_line d ≡ ok d') where
      switched-ok :
          (build' : Build) (r : Result ControlRegisters) {x : Build × ControlRegisters}
          → paired build' r ≡ ok x
          → and_then (compute r) (finish l bytes info build registers build') d ≡ (ok x, d')
      switched-ok build' (panic e') h = absurd cc
      switched-ok build' (ok registers') h =
          after_ok (perform (print final_line)) (λ _. pure (build', registers'))
            (perform-ok (print final_line) shown)
          ∙ ap (λ (y : Result (Build × ControlRegisters)). (y, d')) h

      memory-ok :
          (r : Result (FrameNumber × Build)) {x : Build × ControlRegisters}
          → loaded r ≡ ok x
          → and_then (compute r) (switch l bytes info build registers) d ≡ (ok x, d')
      memory-ok (panic e') h = absurd cc
      memory-ok (ok (pd, build')) h = switched-ok build' (load_directory pd registers) h

  -- The start of the boot, up to the report.
  kernel_run-reporting :
      (d : Display) {d₁ : Display}
      → print first_line (clear d) ≡ ok d₁
      → kernel_run l bytes bootloader_magic info build registers d
        ≡ reporting l bytes info build registers d₁
  unfolding kernel_run
  kernel_run-reporting d shown =
      after_ok (perform (print first_line)) (λ _. reporting l bytes info build registers)
        (perform-ok (print first_line) shown)

  kernel_run-refused :
      (magic : ℕ) (d : Display)
      → magic ≢ bootloader_magic
      → kernel_run l bytes magic info build registers d ≡ (panic bad_magic, d)
  unfolding kernel_run
  kernel_run-refused magic d other = ground arith

  abbrev run : Display → Result (Build × ControlRegisters) × Display
  run d = kernel_run l bytes bootloader_magic info build registers d

  abbrev rest : Action Display (Build × ControlRegisters)
  rest = memory l bytes info build registers

  unmapped-Boots :
      (d : Display) → IsOnScreen d → memory_map bytes info ≡ none → Boots bootloader_magic d (run d)
  unmapped-Boots d screen absent =
      let (d₁, e₁, screen₁) = print-IsOnScreen first_line (clear d) (clear-IsOnScreen d screen) in
      let (d₂, e₂, screen₂) =
        print_color-IsOnScreen (color_bits Color.yellow) no_map_text d₁ screen₁ in
      let reported = report_run-none vga_console bytes info d₁ absent e₂ in
      let ends : run d ≡ (panic no_memory_map, d₂) =
        kernel_run-reporting d e₁
        ∙ after_ok (report_run vga_console bytes info) (λ _. rest) reported
        ∙ memory-panic d₂ (init l bytes info build)
            (ap loaded (init-none l bytes info build absent)) in
      subst (Boots bootloader_magic d) (sym ends) (Boots.unmapped refl absent e₁ e₂)

  module _ (d : Display) (screen : IsOnScreen d) (m : MemoryMap) (rs : List MemoryRegion)
      (map_e : memory_map bytes info ≡ some m) (short : length m.buf < 2 ^ 32) where
    broken-Boots : Yields m rs false → Boots bootloader_magic d (run d)
    broken-Boots yields =
        let (d₁, e₁, screen₁) = print-IsOnScreen first_line (clear d) (clear-IsOnScreen d screen) in
        let (d₂, e₂, screen₂, reported) =
          report_run-overflow vga_console bytes info d₁ m rs screen₁ map_e short yields in
        let shown =
          Shows-append vga_console first_line (title ++ lines rs) (e₁, screen₁) (e₂, screen₂) in
        let ends : run d ≡ (panic overflow, d₂) =
          kernel_run-reporting d e₁
          ∙ after_panic (report_run vga_console bytes info) (λ _. rest) reported in
        subst (Boots bootloader_magic d) (sym ends) (Boots.broken m rs refl map_e yields shown.0)

    walked-Boots : Yields m rs true → Boots bootloader_magic d (run d)
    walked-Boots yields =
        let (d₁, e₁, screen₁) = print-IsOnScreen first_line (clear d) (clear-IsOnScreen d screen) in
        let (d₂, e₂, screen₂, reported) =
          report_run-ok vga_console bytes info d₁ m rs screen₁ map_e short yields in
        let (d₃, e₃, screen₃) = print-IsOnScreen final_line d₂ screen₂ in
        let to_rest : run d ≡ rest d₂ =
          kernel_run-reporting d e₁
          ∙ after_ok (report_run vga_console bytes info) (λ _. rest) reported in
        elim (Result-cases settled) [
          | inr (e, stopped) ↦
              let shown =
                Shows-append vga_console first_line (report rs) (e₁, screen₁) (e₂, screen₂) in
              let ends : run d ≡ (panic e, d₂) =
                to_rest ∙ memory-panic d₂ (init l bytes info build) stopped in
              subst (Boots bootloader_magic d) (sym ends)
                (Boots.failed m rs refl map_e yields stopped shown.0)
          | inl (x, done) ↦
              let shown =
                Shows-append vga_console first_line (report rs ++ final_line) (e₁, screen₁)
                  (Shows-append vga_console (report rs) final_line (e₂, screen₂) (e₃, screen₃)) in
              let ends : run d ≡ (ok x, d₃) =
                to_rest ∙ memory-ok d₂ e₃ (init l bytes info build) done in
              subst (Boots bootloader_magic d) (sym ends)
                (Boots.started m rs refl map_e yields done shown.0)
        ]

    mapped-Boots : (clean : Bool) → Yields m rs clean → Boots bootloader_magic d (run d)
    mapped-Boots true yields = walked-Boots yields
    mapped-Boots false yields = broken-Boots yields

  run-Boots :
      (d : Display) → info.mmap_length < 2 ^ 32 → IsOnScreen d → Boots bootloader_magic d (run d)
  run-Boots d short screen = elim (Option-cases (memory_map bytes info)) [
    | inl absent ↦ unmapped-Boots d screen absent
    | inr (m, map_e) ↦
        let fits : length m.buf < 2 ^ 32 = omega (arith, length-memory_map bytes info map_e) in
        let (rs, clean, few, yields, loop) = for_regions-each m fits in
        mapped-Boots d screen m rs map_e fits clean yields
  ]

  -- Whatever the loader hands over, with the cursor on the screen and a 32-bit length of the memory map,
  -- the boot ends in one of five ways, and the screen shows how far it came. Without the magic number it
  -- panics with the screen untouched. Without a map it panics under the yellow warning, in `memory::init`.
  -- At an entry whose size overflows it panics under the lines of the regions before that entry. If
  -- `memory::init` panics, with a map that is walked to its end, the whole report stands there. Otherwise it
  -- comes to its final loop, under the report and the final line.
  pub kernel_run-Boots :
      (magic : ℕ) (d : Display)
      → info.mmap_length < 2 ^ 32
      → IsOnScreen d
      → Boots magic d (kernel_run l bytes magic info build registers d)
  kernel_run-Boots magic d short screen = elim (ℕ_discrete magic bootloader_magic) [
    | no other ↦
        subst (Boots magic d) (sym (kernel_run-refused magic d other)) (Boots.refused other)
    | yes same ↦
        subst (λ k. Boots k d (kernel_run l bytes k info build registers d)) (sym same)
          (run-Boots d short screen)
  ]
