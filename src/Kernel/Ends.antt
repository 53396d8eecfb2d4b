-- ===== src/Kernel/Ends.antt =====
-- The boot ends: it reaches the final loop or a panic, whatever the loader hands over.
use zkrnl.Base.{
  ℕ, ◌^◌, ◌<◌, no_memory_map, bad_magic, arith, ◌==◌, Option-cases, inl, inr, length, Halts, Ends,
  returns, panics, >>=-Ends, require-Halts,
}
use mathlib.Core.Path.{subst, sym}
use zkrnl.Text.{Bytes, codes}
use zkrnl.Console.{Console}
use zkrnl.Multiboot.{MultibootInfo, MemoryRegion, memory_map}
use zkrnl.Multiboot.Total.{add_usable-Halts, length-memory_map}
use zkrnl.Multiboot.Report.{region_line, print_region, print_memory_map}
use zkrnl.Memory.Layout.{Layout}
use zkrnl.Memory.Frame.Ends.{for_regions-Ends, init-Halts}
use zkrnl.Memory.Paging.Directory.{Build}
use zkrnl.Memory.Paging.Ends.{init-Halts as paging-Halts, load_directory-Halts}
use zkrnl.Memory.Boot.{init}
use zkrnl.Vga.{clear}
use zkrnl.Vga.Screen.{IsOnScreen}
use zkrnl.Vga.Sink.{vga_console}
use zkrnl.Kernel.{Machine, kernel_main, bootloader_magic}
use zkrnl.Kernel.Start.{first_line, final_line, clear-IsOnScreen}

module _ {S : Type 0} (c : Console S) where
  printk-Ends : (text : Bytes) (s : S) → c.IsReady s → Ends c.IsReady (c.printk text s)
  printk-Ends text s ready =
      let (s', e, ready') = c.printk-IsReady text s ready in
      subst (Ends c.IsReady) (sym e) (returns s' ready')

  printk_color-Ends :
      (color : ℕ) (text : Bytes) (s : S)
      → c.IsReady s
      → Ends c.IsReady (c.printk_color color text s)
  printk_color-Ends color text s ready =
      let (s', e, ready') = c.printk_color-IsReady color text s ready in
      subst (Ends c.IsReady) (sym e) (returns s' ready')

  print_region-Ends :
      (t : ℕ × S) (r : MemoryRegion)
      → c.IsReady t.1
      → Ends (λ (t' : ℕ × S). c.IsReady t'.1) (print_region c t r)
  unfolding print_region
  print_region-Ends (usable, s) r ready =
      >>=-Ends (printk-Ends (region_line r) s ready)
        λ s' ready'. >>=-Ends (add_usable-Halts usable r) λ usable' _. returns _ ready'

  print_memory_map-Ends :
      (bytes : ℕ → ℕ) (info : MultibootInfo) (s : S)
      → info.mmap_length < 2 ^ 32
      → c.IsReady s
      → Ends c.IsReady (print_memory_map c bytes info s)
  unfolding print_memory_map
  print_memory_map-Ends bytes info s short ready = elim (Option-cases (memory_map bytes info)) [
    | inl absent ↦ rw (print_memory_map, absent) (printk_color-Ends _ _ s ready)
    | inr (m, e) ↦
        let fits : length m.buf < 2 ^ 32 = omega (arith, length-memory_map bytes info e) in
        rw (print_memory_map, e)
          (>>=-Ends (printk-Ends (codes "multiboot memory map:\n") s ready) λ s' ready'.
            >>=-Ends
              (for_regions-Ends (λ (t : ℕ × S). c.IsReady t.1) (print_region c) m (0, s') fits
                print_region-Ends ready')
              λ (usable, s'') ready''. printk-Ends _ s'' ready'')
  ]

memory_init-Halts :
    (l : Layout) (bytes : ℕ → ℕ) (info : MultibootInfo) (s : Build)
    → info.mmap_length < 2 ^ 32
    → Halts (init l bytes info s)
unfolding init
memory_init-Halts l bytes info s short = elim (Option-cases (memory_map bytes info)) [
  | inl absent ↦ rw (init, absent) (panics no_memory_map λ e. cc)
  | inr (m, e) ↦
      let fits : length m.buf < 2 ^ 32 = omega (arith, length-memory_map bytes info e) in
      rw (init, e) (>>=-Ends (init-Halts l m s.allocator fits) λ allocator _. paging-Halts l _)
]

-- `kernel_main` ends on any image, machine and boot information with the cursor on the screen and a
-- 32-bit length of the memory map, well formed or not: it reaches its final loop with the cursor on the
-- screen, or it panics for one of the code's own reasons. No loop on the way runs out of rounds.
pub kernel_main-Ends :
    (l : Layout) (bytes : ℕ → ℕ) (magic : ℕ) (info : MultibootInfo) (m : Machine)
    → info.mmap_length < 2 ^ 32
    → IsOnScreen m.display
    → Ends (λ (m' : Machine). IsOnScreen m'.display) (kernel_main l bytes magic info m)
unfolding kernel_main
kernel_main-Ends l bytes magic info m short on =
    >>=-Ends (require-Halts (magic == bootloader_magic) bad_magic λ e. cc) λ _ _.
      >>=-Ends
        (printk-Ends vga_console first_line (clear m.display) (clear-IsOnScreen m.display on))
        λ d₁ on₁. >>=-Ends (print_memory_map-Ends vga_console bytes info d₁ short on₁) λ d₂ on₂.
          >>=-Ends (memory_init-Halts l bytes info m.build short) λ (pd, build) _.
            >>=-Ends (load_directory-Halts pd m.registers) λ registers _.
              >>=-Ends (printk-Ends vga_console final_line d₂ on₂) λ d₃ on₃. returns _ on₃
