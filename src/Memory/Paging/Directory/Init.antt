-- ===== src/Memory/Paging/Directory/Init.antt =====
-- `paging::init`: the directory that it loads, as the processor walks it.
use zkrnl.Base.{
  ℕ, ◌+◌, ◌-◌, ◌*◌, ◌/◌, ◌≤◌, ◌≡◌, ◌≢◌, refl, ok, arith, ltb, ◌==◌, if◌then◌else◌, update, ◌∙◌,
  Option, none, some,
}
use native.Mathlib.Decide.{ℕ_discrete}
use mathlib.Core.Path.{subst}
use zkrnl.Memory.Layout.{Layout, IsLinked, kernel_virtual_base}
use zkrnl.Memory.Paging.Flags.{kernel_rw}
use zkrnl.Memory.Paging.Directory.{Build, map_kernel_page, map_low_page, map_bootstrap}
use zkrnl.Memory.Paging.Directory.Invariant.{IsBuilt}
use zkrnl.Memory.Paging.Directory.Map.{entry_of, map_page_lem}
use zkrnl.Memory.Paging.Directory.Pages.{Handles, put}

-- The entries that the two loops write, by page number.
abbrev pub kernel_entry : Layout → ℕ → Option ℕ
kernel_entry l p =
    if p * 4096 == l.stack_guard_addr
    then none
    else some (
        p * 4096 - kernel_virtual_base + (if ltb (p * 4096) l.kernel_data_start_addr then 1 else 3))

abbrev pub low_entry : ℕ → Option ℕ
low_entry p = some (p * 4096 + 3)

-- The image fits the first 4 MiB of physical memory, as the bootstrap map demands.
abbrev pub IsSmall : Layout → Type 0
IsSmall l = l.kernel_phys_end_addr ≤ 0x40_0000

abbrev pub first : Layout → ℕ
first l = l.kernel_virt_start_addr / 4096

abbrev pub past : Layout → ℕ
past l = l.kernel_virt_end_addr / 4096

kernel_rw-eq : kernel_rw ≡ 3
unfolding kernel_rw
kernel_rw-eq = refl

pub low-Handles : (pd n : ℕ) → Handles pd 0 0 512 low_entry (map_low_page pd) n
unfolding map_low_page
low-Handles pd n p pte s above below b budget =
    let (s', e, b', budget') =
      map_page_lem pd n 0 p (p * 4096) (p * 4096) kernel_rw pte s (omega arith) (omega arith) b
        (omega arith) (omega arith) (rw kernel_rw-eq (omega arith)) budget in
    let value : entry_of (p * 4096) kernel_rw ≡ p * 4096 + 3 = rw kernel_rw-eq (omega arith) in
    (s', e, subst (λ v. IsBuilt pd (update pte p v) s') value b', budget')

map_kernel_page-guard :
    (l : Layout) (pd v : ℕ) (s : Build) → v ≡ l.stack_guard_addr → map_kernel_page l pd v s ≡ ok s
unfolding map_kernel_page
map_kernel_page-guard l pd v s e = ground arith

module _ (l : Layout) (linked : IsLinked l) (small : IsSmall l) (pd n : ℕ) where
  abbrev flags_of : ℕ → ℕ
  flags_of v = if ltb v l.kernel_data_start_addr then 1 else kernel_rw

  map_kernel_page-eq :
      (v : ℕ) (s : Build)
      → v ≢ l.stack_guard_addr
      → kernel_virtual_base ≤ v
      → map_kernel_page l pd v s ≡ map_bootstrap pd v (v - kernel_virtual_base) (flags_of v) s
  unfolding map_kernel_page
  map_kernel_page-eq v s ne h = ground arith

  pub kernel-Handles : Handles pd 768 (first l) (past l) (kernel_entry l) (map_kernel_page l pd) n
  kernel-Handles p pte s above below b budget = elim (ℕ_discrete (p * 4096) l.stack_guard_addr) [
    | yes guard ↦
        let skipped : kernel_entry l p ≡ none = ground arith in
        (s, map_kernel_page-guard l pd (p * 4096) s guard, rw skipped b, budget)
    | no other ↦
        let v : ℕ = p * 4096 in
        let (s', e, b', budget') =
          map_page_lem pd n 768 p v (v - kernel_virtual_base) (flags_of v) pte s (omega arith)
            (omega arith) b (omega arith) (omega arith) (ground (arith, kernel_rw-eq)) budget in
        let value : some (entry_of (v - kernel_virtual_base) (flags_of v)) ≡ kernel_entry l p =
          ground (arith, kernel_rw-eq) in
        (
          s',
          map_kernel_page-eq v s other (omega arith) ∙ e,
          subst (λ o. IsBuilt pd (put o p pte) s') value b',
          budget',
        )
  ]
