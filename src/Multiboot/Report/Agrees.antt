-- ===== src/Multiboot/Report/Agrees.antt =====
-- src/multiboot.rs: the two readings of `print_memory_map`, with and without the state at a panic.
use zkrnl.Base.{
  ℕ, zero, suc, ◌≡◌, refl, ok, none, some, length, Result, inl, inr, Option-cases, sym, >>=-assoc,
  ◌∙◌, >>=-cong, by_option, ap, ◌>>=◌,
}
use zkrnl.Multiboot.Report.Shown.{no_map_text, last_line}
use zkrnl.Base.Action.{
  join, perform, compute, perform-then, compute-then, join-compute, join-perform, >>=-join, pure,
  ◌>>=◌ as and_then,
}
use zkrnl.Text.{codes}
use zkrnl.Console.{Console}
use zkrnl.Vga.Color.{Color, color_bits}
use zkrnl.Multiboot.{
  MultibootInfo, MemoryRegion, MemoryMap, add_usable, memory_map, next, for_regions_from,
  for_regions,
}
use zkrnl.Multiboot.Report.{region_line, print_region, print_memory_map}
use zkrnl.Multiboot.Report.Run.{region_run, regions_run, report_run}

module _ {S : Type 0} (c : Console S) where
  join-region_run :
      (usable : ℕ) (r : MemoryRegion) (s : S)
      → join (region_run c usable r s) ≡ print_region c (usable, s) r
  unfolding region_run print_region
  join-region_run usable r s =
      perform-then (c.printk (region_line r)) (λ _. compute (add_usable usable r)) s
      ∙ >>=-cong (c.printk (region_line r) s) _ _ (λ s'. join-compute (add_usable usable r) s')

  join-regions_run :
      (n : ℕ) (m : MemoryMap) (usable : ℕ) (s : S)
      → join (regions_run c n m usable s) ≡ for_regions_from (print_region c) n m (usable, s)
  unfolding regions_run for_regions_from
  join-regions_run zero m usable s = refl
  join-regions_run (suc n) m usable s =
      compute-then (next m)
        (λ r. elim r [
          | none ↦ pure usable
          | some (region, m') ↦ and_then (region_run c usable region) (regions_run c n m')
        ])
        s
      ∙ >>=-cong (next m) _ _ (
          by_option _ refl λ (r, m').
            >>=-join (region_run c usable r) (regions_run c n m') s
            ∙ ap (λ x. x >>= λ (a, s'). join (regions_run c n m' a s')) (join-region_run usable r s)
            ∙ >>=-cong (print_region c (usable, s) r) _ _ λ (a, s'). join-regions_run n m' a s')

  abbrev title : S → Result S
  title = c.printk (codes "multiboot memory map:\n")

  abbrev total : ℕ → S → Result S
  total usable = c.printk (last_line usable)

  join-map_run :
      (m : MemoryMap) (s : S)
      → join (
          and_then
            (perform title)
            (λ _.
              and_then (regions_run c (suc (length m.buf)) m 0) λ usable. perform (total usable))
            s)
        ≡ ((title s >>= λ s'.
              for_regions (print_region c) m (0, s') >>= λ (usable, s''). total usable s'')
            >>= λ s'. ok (tt, s'))
  unfolding for_regions
  join-map_run m s =
      let loop : S → Result (ℕ × S) = λ s'. for_regions (print_region c) m (0, s') in
      let walk = regions_run c (suc (length m.buf)) m 0 in
      let last = λ (usable : ℕ). perform (total usable) in
      perform-then title (λ _. and_then walk last) s
      ∙ >>=-cong (title s) _ _ (λ s'.
        >>=-join walk last s'
        ∙ ap (λ x. x >>= λ (usable, s''). join (last usable s''))
            (join-regions_run (suc (length m.buf)) m 0 s')
        ∙ >>=-cong (loop s') _ _ (λ (usable, s''). join-perform (total usable) s'')
        ∙ sym (>>=-assoc (loop s') (λ (usable, s''). total usable s'') (λ s'. ok (tt, s'))))
      ∙ sym (
          >>=-assoc (title s) (λ s'. loop s' >>= λ (usable, s''). total usable s'')
            (λ s'. ok (tt, s')))

  -- Where a panic drops the state, the two are the same.
  pub join-report_run :
      (memory : ℕ → ℕ) (info : MultibootInfo) (s : S)
      → join (report_run c memory info s) ≡ (print_memory_map c memory info s >>= λ s'. ok (tt, s'))
  unfolding report_run print_memory_map for_regions
  join-report_run memory info s = elim (Option-cases (memory_map memory info)) [
    | inl absent ↦
        rw (report_run, print_memory_map, absent)
          (join-perform (c.printk_color (color_bits Color.yellow) no_map_text) s)
    | inr (m, e) ↦ rw (report_run, print_memory_map, e) (join-map_run m s)
  ]
