-- ===== src/Multiboot/Report/Broken.antt =====
-- src/multiboot.rs: what `print_memory_map` has shown when it returns or panics.
use zkrnl.Base.{
  ℕ, zero, suc, ◌+◌, ◌*◌, ◌^◌, ◌<◌, ◌≡◌, refl, ◌∙◌, ap, List, [], ◌∷◌, ok, panic, overflow, Bool,
  true, false, none, some, length, ◌++◌, arith, if◌then◌else◌,
}
use zkrnl.Base.Action.{
  Action, compute, perform, after_ok, after_panic, perform-ok, ◌>>=◌ as and_then,
}
use zkrnl.Text.{Bytes, codes}
use zkrnl.Console.{Console}
use zkrnl.Vga.Color.{Color, color_bits}
use zkrnl.Multiboot.{MultibootInfo, MemoryRegion, MemoryMap, memory_map, add_usable}
use zkrnl.Multiboot.Walk.{Yields}
use zkrnl.Multiboot.Total.{usable_bytes, add_usable-ok, usable_bytes-le, length_buf-Yields}
use zkrnl.Multiboot.Report.{region_line}
use zkrnl.Multiboot.Report.Shown.{lines, report, last_line, no_map_text}
use zkrnl.Multiboot.Report.Run.{region_run, regions_run, report_run}

abbrev pub title : Bytes
title = codes "multiboot memory map:\n"

module _ {S : Type 0} (c : Console S) where
  region_run-eq :
      (usable : ℕ) (r : MemoryRegion) (s : S) {usable' : ℕ} {s' : S}
      → c.printk (region_line r) s ≡ ok s'
      → add_usable usable r ≡ ok usable'
      → region_run c usable r s ≡ (ok usable', s')
  unfolding region_run
  region_run-eq usable r s {usable'} {s'} shown summed =
      after_ok (perform (c.printk (region_line r))) (λ _. compute (add_usable usable r))
        (perform-ok (c.printk (region_line r)) shown)
      ∙ ap (λ t. (t, s')) summed

  -- The loop, at a map that ends after its regions or at one that breaks off.
  regions_run-Yields :
      (rs : List MemoryRegion) (clean : Bool) (n : ℕ) (m : MemoryMap) (usable : ℕ) (s : S)
      → length rs < n
      → usable + length rs * 2 ^ 32 < 2 ^ 64
      → c.IsReady s
      → Yields m rs clean
      → (s' : S) × (c.printk (lines rs) s ≡ ok s')
        × c.IsReady s'
        × (regions_run c n m usable s
            ≡ ((if clean then ok (usable + usable_bytes rs) else panic overflow), s'))
  unfolding regions_run
  regions_run-Yields rs clean zero m usable s enough few ready y = absurd (omega arith)
  regions_run-Yields [] true (suc n) m usable s enough few ready y =
      (s, c.printk-nil s, ready, rw y (ap (λ (t : ℕ). (ok t, s)) (omega arith)))
  regions_run-Yields [] false (suc n) m usable s enough few ready y =
      (s, c.printk-nil s, ready, rw y refl)
  regions_run-Yields (r ∷ rs) clean (suc n) m usable s enough few ready (m', e, y) =
      let (s', shown, ready') = c.printk-IsReady (region_line r) s ready in
      let (s'', more, ready'', loop) =
        regions_run-Yields rs clean n m' (usable + usable_bytes (r ∷ [])) s' (omega arith)
          (omega (arith, usable_bytes-le r)) ready' y in
      let sum : usable + usable_bytes (r ∷ []) + usable_bytes rs ≡ usable + usable_bytes (r ∷ rs) =
        omega arith in
      (
        s'',
        rw (c.printk-append (region_line r) (lines rs) s, shown) more,
        ready'',
        rw e (
            after_ok (region_run c usable r) (regions_run c n m')
              (region_run-eq usable r s shown (add_usable-ok r usable (omega arith)))
            ∙ loop
            ∙ ap (λ (t : ℕ). ((if clean then ok t else panic overflow), s'')) sum),
      )

  pub report_run-none :
      (memory : ℕ → ℕ) (info : MultibootInfo) (s : S) {s' : S}
      → memory_map memory info ≡ none
      → c.printk_color (color_bits Color.yellow) no_map_text s ≡ ok s'
      → report_run c memory info s ≡ (ok tt, s')
  unfolding report_run
  report_run-none memory info s absent shown =
      rw (report_run, absent)
        (perform-ok (c.printk_color (color_bits Color.yellow) no_map_text) shown)

  abbrev last : ℕ → Action S (Unit {0})
  last usable = perform (c.printk (last_line usable))

  abbrev body : MemoryMap → Action S (Unit {0})
  body m = and_then (regions_run c (suc (length m.buf)) m 0) last

  report_run-eq :
      (memory : ℕ → ℕ) (info : MultibootInfo) (s : S) {m : MemoryMap} {s' : S}
      → memory_map memory info ≡ some m
      → c.printk title s ≡ ok s'
      → report_run c memory info s ≡ body m s'
  unfolding report_run
  report_run-eq memory info s {m} map_e head =
      rw (report_run, map_e)
        (after_ok (perform (c.printk title)) (λ _. body m) (perform-ok (c.printk title) head))

  module _ (memory : ℕ → ℕ) (info : MultibootInfo) (s : S) (m : MemoryMap) (rs : List MemoryRegion)
      (ready : c.IsReady s) (map_e : memory_map memory info ≡ some m)
      (short : length m.buf < 2 ^ 32) where
    -- A map that is walked to its end.
    pub report_run-ok :
        Yields m rs true
        → (s' : S) × (c.printk (report rs) s ≡ ok s')
          × c.IsReady s'
          × (report_run c memory info s ≡ (ok tt, s'))
    report_run-ok yields =
        let (s₁, head, ready₁) = c.printk-IsReady title s ready in
        let few = length_buf-Yields m rs true short yields in
        let (s₂, shown, ready₂, loop) =
          regions_run-Yields rs true (suc (length m.buf)) m 0 s₁ (omega arith) (omega arith) ready₁
            yields in
        let (s₃, total, ready₃) = c.printk-IsReady (last_line (usable_bytes rs)) s₂ ready₂ in
        (
          s₃,
          rw
              (
                c.printk-append title (lines rs ++ last_line (usable_bytes rs)) s,
                head,
                c.printk-append (lines rs) (last_line (usable_bytes rs)) s₁,
                shown,
              )
              total,
          ready₃,
          report_run-eq memory info s map_e head
              ∙ after_ok (regions_run c (suc (length m.buf)) m 0) last
                  (loop ∙ ap (λ (t : ℕ). (ok t, s₂)) (omega arith))
              ∙ perform-ok (c.printk (last_line (usable_bytes rs))) total,
        )

    -- A map that breaks off at an entry: the lines of the regions before it are shown.
    pub report_run-overflow :
        Yields m rs false
        → (s' : S) × (c.printk (title ++ lines rs) s ≡ ok s')
          × c.IsReady s'
          × (report_run c memory info s ≡ (panic overflow, s'))
    report_run-overflow yields =
        let (s₁, head, ready₁) = c.printk-IsReady title s ready in
        let few = length_buf-Yields m rs false short yields in
        let (s₂, shown, ready₂, loop) =
          regions_run-Yields rs false (suc (length m.buf)) m 0 s₁ (omega arith) (omega arith) ready₁
            yields in
        (
          s₂,
          rw (c.printk-append title (lines rs) s, head) shown,
          ready₂,
          report_run-eq memory info s map_e head
              ∙ after_panic (regions_run c (suc (length m.buf)) m 0) last loop,
        )
