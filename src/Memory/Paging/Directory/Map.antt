-- ===== src/Memory/Paging/Directory/Map.antt =====
-- `map_bootstrap`: it maps one page, and takes a frame for the page table of a slot on its first use.
use zkrnl.Base.{ℕ, ◌+◌, ◌*◌, ◌/◌, ◌%◌, ◌^◌, ◌<◌, ◌≡◌, ok, arith, ◌==◌, update, sym, false, lt→ltb}
use zkrnl.Memory.Address.{frame_floor}
use zkrnl.Memory.Address.Laws.{indices_as_arith}
use zkrnl.Memory.Paging.Flags.{PageFlags}
use zkrnl.Memory.Paging.Entry.Pack.{new-eq}
use zkrnl.Memory.Paging.Directory.{Build, write_entry, table_of, map_bootstrap}
use zkrnl.Memory.Paging.Directory.Invariant.{IsBuilt, written-IsBuilt, written-pd}
use mathlib.Core.Path.{subst}
use zkrnl.Memory.Paging.Directory.Table.{bootstrap_frame_ptr-ok, Budget, table_of_lem}

-- The entry that a page gets.
abbrev pub entry_of : ℕ → PageFlags → ℕ
entry_of phys flags = phys / 4096 * 4096 + flags

map_bootstrap-eq :
    (pd virt phys flags t : ℕ) (s s' : Build)
    → virt / 2 ^ 22 < 1023
    → phys < 2 ^ 32
    → flags < 2 ^ 12
    → t < 1024
    → table_of pd (virt / 2 ^ 22) s ≡ ok (t, s')
    → map_bootstrap pd virt phys flags s
      ≡ ok (record s' {
        memory = write_entry s'.memory t (virt / 2 ^ 12 % 2 ^ 10) (entry_of phys flags);
      })
unfolding map_bootstrap frame_floor
map_bootstrap-eq pd virt phys flags t s s' here in_range low table e =
    let (pd_is, pt_is, _) = indices_as_arith virt in
    rw (
      pd_is,
      lt→ltb (virt / 2 ^ 22) 1024 (omega arith),
      e,
      bootstrap_frame_ptr-ok t table,
      new-eq (phys / 4096) flags (omega arith) low,
      pt_is,
      lt→ltb (virt / 2 ^ 12 % 2 ^ 10) 1024 (omega arith),
    )

-- On a built directory, for a virtual address below the last slot, a u32 physical address and twelve bits
-- of flags, and with a frame in supply if the slot has no page table yet, `map_bootstrap` does not
-- panic: it sets the entry of the page of `virt` to the frame of `phys` with the flags, changes the
-- entry of no other page, keeps the directory built, and the frames in supply besides the one for a
-- missing table are still there.
pub map_bootstrap_lem :
    (pd n virt phys flags : ℕ) (pte : ℕ → ℕ) (s : Build)
    → IsBuilt pd pte s
    → virt / 2 ^ 22 < 1023
    → phys < 2 ^ 32
    → flags < 2 ^ 12
    → Budget pd (virt / 2 ^ 22) n s
    → (s' : Build) × (map_bootstrap pd virt phys flags s ≡ ok s')
      × IsBuilt pd (update pte (virt / 4096) (entry_of phys flags)) s'
      × Budget pd (virt / 2 ^ 22) n s'
map_bootstrap_lem pd n virt phys flags pte s b here in_range low budget =
    let idx : ℕ = virt / 2 ^ 22 in
    let j : ℕ = virt / 2 ^ 12 % 2 ^ 10 in
    let (pd_is, pt_is, _) = indices_as_arith virt in
    let (t, s', e, table) = table_of_lem pd idx n pte s b here budget in
    let page : idx * 1024 + j ≡ virt / 4096 = omega arith in
    let value : ℕ = entry_of phys flags in
    let built =
      written-IsBuilt pd t idx j value pte s' table.built here (omega arith) table.points in
    let s'' : Build = record s' { memory = write_entry s'.memory t j value } in
    let word : s''.memory pd idx ≡ s'.memory pd idx =
      written-pd pd t idx j value pte s' table.built here (omega arith) table.points idx in
    let set : (s''.memory pd idx == 0) ≡ false = ground (arith, table.points) in
    (
      s'',
      map_bootstrap-eq pd virt phys flags t s s' here in_range low table.low e,
      subst (λ k. IsBuilt pd (update pte k value) s'') page built,
      rw set table.frames,
    )

-- The same by page number, in a slot that is given by its index.
pub map_page_lem :
    (pd n idx p virt phys flags : ℕ) (pte : ℕ → ℕ) (s : Build)
    → virt / 4096 ≡ p
    → virt / 2 ^ 22 ≡ idx
    → IsBuilt pd pte s
    → idx < 1023
    → phys < 2 ^ 32
    → flags < 2 ^ 12
    → Budget pd idx n s
    → (s' : Build) × (map_bootstrap pd virt phys flags s ≡ ok s')
      × IsBuilt pd (update pte p (entry_of phys flags)) s'
      × Budget pd idx n s'
map_page_lem pd n idx p virt phys flags pte s page slot b here in_range low budget =
    let (s', e, b', budget') =
      map_bootstrap_lem pd n virt phys flags pte s b (omega arith) in_range low
        (subst (λ k. Budget pd k n s) (sym slot) budget) in
    (
      s',
      e,
      subst (λ k. IsBuilt pd (update pte k (entry_of phys flags)) s') page b',
      subst (λ k. Budget pd k n s') slot budget',
    )
