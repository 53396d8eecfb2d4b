-- ===== src/Multiboot/Report/Shown.antt =====
-- What the boot self-check shows.
use zkrnl.Base.{
  ℕ, ◌+◌, ◌*◌, ◌/◌, ◌^◌, ◌<◌, ◌≡◌, List, [], ◌∷◌, ok, arith, ap, ◌∙◌, Bool, true, false, none, some,
  panic, overflow, Fault, ◌⊎◌, inl, inr, Option-cases, length, ◌++◌,
}
use zkrnl.Text.{Bytes, codes, decimal}
use zkrnl.Console.{Console}
use zkrnl.Multiboot.{MultibootInfo, MemoryRegion, MemoryMap, memory_map, for_regions, add_usable}
use zkrnl.Multiboot.Walk.{each, for_regions-each, Yields, for_regions-Yields}
use zkrnl.Vga.Color.{Color, color_bits}
use zkrnl.Multiboot.Total.{
  length-memory_map, usable_bytes, add_usable-ok, usable_bytes-le, length-Yields,
}
use zkrnl.Multiboot.Report.{region_line, print_region, print_memory_map}

-- One line for each region, in the map's order.
abbrev pub lines : List MemoryRegion → Bytes
lines [] = []
lines (r ∷ rs) = region_line r ++ lines rs

abbrev pub last_line : ℕ → Bytes
last_line usable = codes "usable RAM: " ++ (decimal (usable / 1024) ++ codes " KiB\n")

-- The warning that there is no map.
abbrev pub no_map_text : Bytes
no_map_text = codes "multiboot: no memory map provided\n"

-- The whole text for a map that yields `rs`.
abbrev pub report : List MemoryRegion → Bytes
report rs = codes "multiboot memory map:\n" ++ (lines rs ++ last_line (usable_bytes rs))

module _ {S : Type 0} (c : Console S) where
  print_region-eq :
      (r : MemoryRegion) (usable : ℕ) (s : S) {usable' : ℕ} {s' : S}
      → c.printk (region_line r) s ≡ ok s'
      → add_usable usable r ≡ ok usable'
      → print_region c (usable, s) r ≡ ok (usable', s')
  unfolding print_region
  print_region-eq r usable s shown summed = rw (shown, summed)

  each-print_region :
      (rs : List MemoryRegion) (usable : ℕ) (s : S)
      → usable + length rs * 2 ^ 32 < 2 ^ 64
      → c.IsReady s
      → (s' : S) × (c.printk (lines rs) s ≡ ok s')
        × c.IsReady s'
        × (each (print_region c) rs (usable, s) ≡ ok (usable + usable_bytes rs, s'))
  each-print_region [] usable s short ready =
      (s, c.printk-nil s, ready, ap (λ (t : ℕ). ok (t, s)) (omega arith))
  each-print_region (r ∷ rs) usable s short ready =
      let (s', shown, ready') = c.printk-IsReady (region_line r) s ready in
      let (s'', more, ready'', rest) =
        each-print_region rs (usable + usable_bytes (r ∷ [])) s' (omega (arith, usable_bytes-le r))
          ready' in
      (
        s'',
        rw (c.printk-append (region_line r) (lines rs) s, shown) more,
        ready'',
        rw (print_region-eq r usable s shown (add_usable-ok r usable (omega arith)))
            (rest ∙ ap (λ (t : ℕ). ok (t, s'')) (omega arith)),
      )

  print_memory_map-eq :
      (memory : ℕ → ℕ) (info : MultibootInfo) (s : S) {m : MemoryMap} {s₁ s₂ s₃ : S} {usable : ℕ}
      → memory_map memory info ≡ some m
      → c.printk (codes "multiboot memory map:\n") s ≡ ok s₁
      → for_regions (print_region c) m (0, s₁) ≡ ok (usable, s₂)
      → c.printk (last_line usable) s₂ ≡ ok s₃
      → print_memory_map c memory info s ≡ ok s₃
  unfolding print_memory_map
  print_memory_map-eq memory info s map_e head loop last =
      rw (print_memory_map, map_e, head, loop) last

  print_memory_map-panic :
      (memory : ℕ → ℕ) (info : MultibootInfo) (s : S) {m : MemoryMap} {s₁ : S} {e : Fault}
      → memory_map memory info ≡ some m
      → c.printk (codes "multiboot memory map:\n") s ≡ ok s₁
      → for_regions (print_region c) m (0, s₁) ≡ panic e
      → print_memory_map c memory info s ≡ panic e
  unfolding print_memory_map
  print_memory_map-panic memory info s map_e head loop = rw (print_memory_map, map_e, head, loop)

  pub print_memory_map-none :
      (memory : ℕ → ℕ) (info : MultibootInfo) (s : S)
      → memory_map memory info ≡ none
      → print_memory_map c memory info s ≡ c.printk_color (color_bits Color.yellow) no_map_text s
  unfolding print_memory_map
  print_memory_map-none memory info s absent = rw (print_memory_map, absent)

  -- On a ready console, `print_memory_map` for a map that the iterator walks to its end does not fail: it
  -- shows exactly the report on the regions of the map, and the console stays ready. The report ends
  -- with the sum of the addressable bytes of the available regions, in KiB, which cannot overflow.
  pub print_memory_map-report :
      (memory : ℕ → ℕ) (info : MultibootInfo) (s : S) (m : MemoryMap) (rs : List MemoryRegion)
      → c.IsReady s
      → memory_map memory info ≡ some m
      → length m.buf < 2 ^ 32
      → Yields m rs true
      → (s' : S) × (c.printk (report rs) s ≡ ok s')
        × (print_memory_map c memory info s ≡ ok s')
        × c.IsReady s'
  print_memory_map-report memory info s m rs ready map_e short yields =
      let head_line : Bytes = codes "multiboot memory map:\n" in
      let (s₁, head, ready₁) = c.printk-IsReady head_line s ready in
      let few = length-Yields m rs true short yields in
      let (s₂, shown, ready₂, loop) = each-print_region rs 0 s₁ (omega arith) ready₁ in
      let (s₃, last, ready₃) = c.printk-IsReady (last_line (usable_bytes rs)) s₂ ready₂ in
      (
        s₃,
        rw
            (
              c.printk-append head_line (lines rs ++ last_line (usable_bytes rs)) s,
              head,
              c.printk-append (lines rs) (last_line (usable_bytes rs)) s₁,
              shown,
            )
            last,
        print_memory_map-eq memory info s map_e head
            (rw (for_regions-Yields (print_region c) m (0, s₁) rs true short yields, loop)
              (ap (λ (t : ℕ). ok (t, s₂)) (omega arith)))
            last,
        ready₃,
      )

  -- An overflow in the size field of an entry panics the walk behind the regions before it.
  print_memory_map-overflow :
      (memory : ℕ → ℕ) (info : MultibootInfo) (s : S) (m : MemoryMap) (rs : List MemoryRegion)
      → c.IsReady s
      → memory_map memory info ≡ some m
      → length m.buf < 2 ^ 32
      → Yields m rs false
      → print_memory_map c memory info s ≡ panic overflow
  print_memory_map-overflow memory info s m rs ready map_e short yields =
      let (s₁, head, ready₁) = c.printk-IsReady (codes "multiboot memory map:\n") s ready in
      let few = length-Yields m rs false short yields in
      let (s₂, shown, ready₂, loop) = each-print_region rs 0 s₁ (omega arith) ready₁ in
      print_memory_map-panic memory info s map_e head
        (rw (for_regions-Yields (print_region c) m (0, s₁) rs false short yields, loop))

  -- On a ready console and a 32-bit length of the map, `print_memory_map` has three outcomes. Without a
  -- map it shows the warning in yellow. With a map that the iterator walks to its end it shows exactly the
  -- report: a line for each region in order, and the sum of the addressable bytes of the available
  -- regions, in KiB, which cannot overflow. It panics only if the walk meets an entry whose size field
  -- overflows the stride. In the first two the console stays ready.
  pub print_memory_map_lem :
      (memory : ℕ → ℕ) (info : MultibootInfo) (s : S)
      → c.IsReady s
      → info.mmap_length < 2 ^ 32
      → ((memory_map memory info ≡ none)
          × ((s' : S) × (c.printk_color (color_bits Color.yellow) no_map_text s ≡ ok s')
              × (print_memory_map c memory info s ≡ ok s')
              × c.IsReady s'))
        ⊎ ((m : MemoryMap) × (rs : List MemoryRegion) × (memory_map memory info ≡ some m)
            × ((Yields m rs true
                  × ((s' : S) × (c.printk (report rs) s ≡ ok s')
                      × (print_memory_map c memory info s ≡ ok s')
                      × c.IsReady s'))
                ⊎ (Yields m rs false × (print_memory_map c memory info s ≡ panic overflow))))
  print_memory_map_lem memory info s ready small = elim (Option-cases (memory_map memory info)) [
    | inl absent ↦
        let (s', shown, ready') =
          c.printk_color-IsReady (color_bits Color.yellow) no_map_text s ready in
        inl (absent, (s', shown, print_memory_map-none memory info s absent ∙ shown, ready'))
    | inr (m, map_e) ↦
        let short : length m.buf < 2 ^ 32 = omega (arith, length-memory_map memory info map_e) in
        let (rs, clean, few, yields, loop) = for_regions-each m short in
        inr (m, rs, map_e, outcome m rs clean map_e short yields)
  ]
    where
      outcome :
          (m : MemoryMap) (rs : List MemoryRegion) (clean : Bool)
          → memory_map memory info ≡ some m
          → length m.buf < 2 ^ 32
          → Yields m rs clean
          → (Yields m rs true
              × ((s' : S) × (c.printk (report rs) s ≡ ok s')
                  × (print_memory_map c memory info s ≡ ok s')
                  × c.IsReady s'))
            ⊎ (Yields m rs false × (print_memory_map c memory info s ≡ panic overflow))
      outcome m rs true map_e short yields =
          inl (yields, print_memory_map-report memory info s m rs ready map_e short yields)
      outcome m rs false map_e short yields =
          inr (yields, print_memory_map-overflow memory info s m rs ready map_e short yields)
