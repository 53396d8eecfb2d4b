-- ===== src/Multiboot/Report.antt =====
-- src/multiboot.rs: `print_memory_map` with its console output, and the `Debug` text of `RegionKind`.
pub mod Shown
pub mod Run
pub mod Agrees
pub mod Ready
pub mod Broken
use zkrnl.Base.{ℕ, ◌/◌, ok, Result, none, some, ◌>>=◌, ◌++◌}
use zkrnl.Text.{Bytes, codes, decimal, decimal_right, hex_padded}
use zkrnl.Console.{Console}
use zkrnl.Vga.Color.{Color, color_bits}
use zkrnl.Multiboot.{
  MultibootInfo, MemoryRegion, RegionKind, saturating_add_u64, add_usable, memory_map, for_regions,
}

-- The derived `Debug`, by the names of the source's variants.
unfoldable pub kind_debug : RegionKind → Bytes
kind_debug RegionKind.available = codes "Available"
kind_debug RegionKind.acpi_reclaimable = codes "AcpiReclaimable"
kind_debug RegionKind.acpi_nvs = codes "AcpiNvs"
kind_debug RegionKind.defective = codes "Defective"
kind_debug (RegionKind.reserved raw) = codes "Reserved(" ++ (decimal raw ++ codes ")")

-- The line of a region: `{base:#012x}`, `{end:#012x}`, `{kib:>9}` and `{:?}`.
unfoldable pub region_line : MemoryRegion → Bytes
unfolding kind_debug
region_line r =
    codes "  ["
    ++ (hex_padded 12 r.base
        ++ (codes ", "
            ++ (hex_padded 12 (saturating_add_u64 r.base r.len)
                ++ (codes ") "
                    ++ (decimal_right 9 (r.len / 1024)
                        ++ (codes " KiB  " ++ (kind_debug r.kind ++ codes "\n")))))))

module _ {S : Type 0} (c : Console S) where
  -- The loop body: the line, then the running total.
  unfoldable pub print_region : ℕ × S → MemoryRegion → Result (ℕ × S)
  unfolding region_line
  print_region (usable, s) r = do
    s' ← c.printk (region_line r) s
    usable' ← add_usable usable r
    ok (usable', s')

  unfoldable pub print_memory_map : (ℕ → ℕ) → MultibootInfo → S → Result S
  unfolding print_region color_bits
  print_memory_map memory info s = elim (memory_map memory info) [
    | none ↦
        c.printk_color (color_bits Color.yellow) (codes "multiboot: no memory map provided\n") s
    | some m ↦ c.printk (codes "multiboot memory map:\n") s >>= λ s'.
        for_regions print_region m (0, s') >>= λ (usable, s'').
        c.printk (codes "usable RAM: " ++ (decimal (usable / 1024) ++ codes " KiB\n")) s''
  ]
