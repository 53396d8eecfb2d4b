-- ===== src/Multiboot/Report/Run.antt =====
-- src/multiboot.rs: `print_memory_map` as an action on the console, whose text outlives a panic.
use zkrnl.Base.{ℕ, zero, suc, ◌/◌, panic, fuel_spent, none, some, ◌++◌, length}
use zkrnl.Base.Action.{Action, ◌>>=◌, ◌>>◌, pure, compute, perform}
use zkrnl.Text.{codes, decimal}
use zkrnl.Console.{Console}
use zkrnl.Vga.Color.{Color, color_bits}
use zkrnl.Multiboot.{MultibootInfo, MemoryRegion, MemoryMap, add_usable, memory_map, next}
use zkrnl.Multiboot.Report.{region_line}

module _ {S : Type 0} (c : Console S) where
  unfoldable pub region_run : ℕ → MemoryRegion → Action S ℕ
  unfolding region_line
  region_run usable r = do perform (c.printk (region_line r)); compute (add_usable usable r)

  -- The loop over the map, with so many rounds left.
  unfoldable pub regions_run : ℕ → MemoryMap → ℕ → Action S ℕ
  unfolding region_run
  regions_run zero m usable = compute (panic fuel_spent)
  regions_run (suc n) m usable = compute (next m) >>= λ r. elim r [
    | none ↦ pure usable
    | some (region, m') ↦ region_run usable region >>= regions_run n m'
  ]

  unfoldable pub report_run : (ℕ → ℕ) → MultibootInfo → Action S (Unit {0})
  unfolding regions_run color_bits
  report_run memory info = elim (memory_map memory info) [
    | none ↦
        perform
          (c.printk_color (color_bits Color.yellow) (codes "multiboot: no memory map provided\n"))
    | some m ↦ do
      perform (c.printk (codes "multiboot memory map:\n"))
      usable ← regions_run (suc (length m.buf)) m 0
      perform (c.printk (codes "usable RAM: " ++ (decimal (usable / 1024) ++ codes " KiB\n")))
  ]
