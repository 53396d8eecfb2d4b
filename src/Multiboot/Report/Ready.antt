-- ===== src/Multiboot/Report/Ready.antt =====
-- src/multiboot.rs: the console during `print_memory_map`, a panic included.
use zkrnl.Base.{ℕ, zero, suc, ◌≡◌, arith, none, some, length, by_option}
use zkrnl.Base.Action.{◌>>=◌ as and_then, Action, pure, compute, perform, >>=-Keeps, perform-Keeps}
use mathlib.Core.Path.{subst}
use zkrnl.Text.{Bytes, codes}
use zkrnl.Console.{Console}
use zkrnl.Multiboot.{MultibootInfo, MemoryRegion, MemoryMap, memory_map, next, add_usable}
use zkrnl.Multiboot.Report.{region_line}
use zkrnl.Multiboot.Report.Shown.{no_map_text, last_line}
use zkrnl.Multiboot.Report.Run.{region_run, regions_run, report_run}
use zkrnl.Vga.Color.{Color, color_bits}

module _ {S : Type 0} (c : Console S) where
  pub printk-Keeps : (text : Bytes) (s : S) → c.IsReady s → c.IsReady (perform (c.printk text) s).1
  printk-Keeps text s ready = perform-Keeps c.IsReady (c.printk text) s ready λ s' e.
      let (s'', e', ready') = c.printk-IsReady text s ready in
      let same : s'' ≡ s' = ground arith in subst c.IsReady same ready'

  printk_color-Keeps :
      (color : ℕ) (text : Bytes) (s : S)
      → c.IsReady s
      → c.IsReady (perform (c.printk_color color text) s).1
  printk_color-Keeps color text s ready =
      perform-Keeps c.IsReady (c.printk_color color text) s ready λ s' e.
        let (s'', e', ready') = c.printk_color-IsReady color text s ready in
        let same : s'' ≡ s' = ground arith in subst c.IsReady same ready'

  region_run-Keeps :
      (usable : ℕ) (r : MemoryRegion) (s : S) → c.IsReady s → c.IsReady (region_run c usable r s).1
  unfolding region_run
  region_run-Keeps usable r s ready =
      >>=-Keeps c.IsReady (perform (c.printk (region_line r))) (λ _. compute (add_usable usable r))
        s (printk-Keeps (region_line r) s ready) λ _ s' ready'. ready'

  regions_run-Keeps :
      (n : ℕ) (m : MemoryMap) (usable : ℕ) (s : S)
      → c.IsReady s
      → c.IsReady (regions_run c n m usable s).1
  unfolding regions_run
  regions_run-Keeps zero m usable s ready = ready
  regions_run-Keeps (suc n) m usable s ready =
      >>=-Keeps c.IsReady (compute (next m))
        (λ r. elim r [
          | none ↦ pure usable
          | some (region, m') ↦ and_then (region_run c usable region) (regions_run c n m')
        ])
        s ready
        λ r s' ready'.
          by_option
            (λ r.
              c.IsReady
                ((elim r as (λ _. Action S ℕ) [
                  | none ↦ pure usable
                  | some (region, m') ↦ and_then (region_run c usable region) (regions_run c n m')
                ])
                  s').1)
            ready'
            (λ (region, m').
              >>=-Keeps c.IsReady (region_run c usable region) (regions_run c n m') s'
                (region_run-Keeps usable region s' ready')
                λ usable' s'' ready''. regions_run-Keeps n m' usable' s'' ready'')
            r

  pub report_run-Keeps :
      (memory : ℕ → ℕ) (info : MultibootInfo) (s : S)
      → c.IsReady s
      → c.IsReady (report_run c memory info s).1
  unfolding report_run
  report_run-Keeps memory info s ready =
      by_option
        (λ o.
          c.IsReady
            ((elim o as (λ _. Action S (Unit {0})) [
              | none ↦ perform (c.printk_color (color_bits Color.yellow) no_map_text)
              | some m ↦ and_then (perform (c.printk (codes "multiboot memory map:\n"))) λ _.
                  and_then (regions_run c (suc (length m.buf)) m 0)
                    λ usable. perform (c.printk (last_line usable))
            ])
              s).1)
        (printk_color-Keeps (color_bits Color.yellow) no_map_text s ready)
        (λ m.
          >>=-Keeps c.IsReady (perform (c.printk (codes "multiboot memory map:\n")))
            (λ _.
              and_then (regions_run c (suc (length m.buf)) m 0)
                λ usable. perform (c.printk (last_line usable)))
            s (printk-Keeps (codes "multiboot memory map:\n") s ready)
            λ _ s' ready'.
              >>=-Keeps c.IsReady (regions_run c (suc (length m.buf)) m 0)
                (λ usable. perform (c.printk (last_line usable))) s'
                (regions_run-Keeps (suc (length m.buf)) m 0 s' ready')
                λ usable s'' ready''. printk-Keeps (last_line usable) s'' ready'')
        (memory_map memory info)
