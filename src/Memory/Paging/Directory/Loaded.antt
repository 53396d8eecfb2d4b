-- ===== src/Memory/Paging/Directory/Loaded.antt =====
-- `paging::init` as a whole: the directory that it loads, as the processor walks it.
use zkrnl.Base.{
  ℕ, ◌+◌, ◌-◌, ◌*◌, ◌/◌, ◌%◌, ◌^◌, ◌≤◌, ◌<◌, ◌≡◌, ◌≢◌, refl, ok, arith, ltb, ◌==◌, if◌then◌else◌,
  lt_or_le, inl, inr, ap, sym, ◌∙◌, ◌⊎◌, Option, none, some, not, ◌&&◌,
}
use native.Mathlib.Decide.{ℕ_discrete}
use zkrnl.Utils.Bits.Mask.{within}
use zkrnl.Memory.Layout.{Layout, IsLinked, kernel_virtual_base}
use zkrnl.Memory.Paging.Translate.{translate, Translation}
use zkrnl.Memory.Paging.Directory.{Build, init}
use zkrnl.Memory.Paging.Directory.Supply.{HasFrames}
use zkrnl.Memory.Paging.Directory.Invariant.{IsBuilt}
use zkrnl.Memory.Paging.Directory.Init.{IsSmall, first, past}
use zkrnl.Memory.Paging.Directory.Entries.{entries, init-IsBuilt}

-- The page of an address, by slot and index in it.
page_split : (v : ℕ) → v / 2 ^ 22 * 1024 + v / 2 ^ 12 % 2 ^ 10 ≡ v / 4096
page_split v = omega arith

translate-absent :
    (directory : ℕ → ℕ) (tables : ℕ → ℕ → ℕ) (v : ℕ)
    → directory (v / 2 ^ 22) ≡ 0
    → translate directory tables v ≡ none
unfolding translate
translate-absent directory tables v e = ground arith

-- What an entry of a page table says of an address in its page.
abbrev pub leads : ℕ → ℕ → Option Translation
leads pte v =
    if pte % 2 == 0
    then none
    else some (record { phys = pte / 4096 * 4096 + v % 4096; writable = pte / 2 % 2 })

translate-table :
    (directory : ℕ → ℕ) (tables : ℕ → ℕ → ℕ) (v t : ℕ)
    → directory (v / 2 ^ 22) ≡ t * 4096 + 3
    → t < 1024
    → translate directory tables v ≡ leads (tables t (v / 2 ^ 12 % 2 ^ 10)) v
unfolding translate
translate-table directory tables v t e low =
    let table : directory (v / 2 ^ 22) / 2 ^ 12 ≡ t = omega arith in
    let present : directory (v / 2 ^ 22) % 2 ≡ 1 = omega arith in
    let small : directory (v / 2 ^ 22) / 2 ^ 7 % 2 ≡ 0 = omega arith in
    let writable : directory (v / 2 ^ 22) / 2 % 2 ≡ 1 = omega arith in
    let once : (x : ℕ) → 1 * x ≡ x = λ x. omega arith in
    rw (table, present, small, writable, once) refl

-- A built directory translates by its entries.
IsBuilt-translate :
    (pd : ℕ) (pte : ℕ → ℕ) (s : Build)
    → IsBuilt pd pte s
    → (v : ℕ) → v / 2 ^ 22 < 1023
    → translate (s.memory pd) s.memory v ≡ leads (pte (v / 4096)) v
IsBuilt-translate pd pte s b v h = elim (b.slot (v / 2 ^ 22) h) [
  | inl (absent, none_mapped) ↦
      let unmapped : pte (v / 4096) ≡ 0 =
        ap pte (sym (page_split v)) ∙ none_mapped (v / 2 ^ 12 % 2 ^ 10) (omega arith) in
      translate-absent (s.memory pd) s.memory v absent ∙ rw unmapped refl
  | inr (t, low, ne, used, points, words) ↦
      let word : s.memory t (v / 2 ^ 12 % 2 ^ 10) ≡ pte (v / 4096) =
        words (v / 2 ^ 12 % 2 ^ 10) (omega arith) ∙ ap pte (page_split v) in
      translate-table (s.memory pd) s.memory v t points low ∙ ap (λ x. leads x v) word
]

-- What the kernel sees: the first 2 MiB at their own addresses, and its image in the higher half, with
-- the text read-only and the page below the stack left out.
abbrev pub kernel_view : Layout → ℕ → Option Translation
kernel_view l v =
    if ltb v 0x20_0000
    then some (record { phys = v; writable = 1 })
    else if within l.kernel_virt_start_addr l.kernel_virt_end_addr v
        && not (within l.stack_guard_addr (l.stack_guard_addr + 4096) v)
    then some (record {
      phys = v - kernel_virtual_base;
      writable = if ltb v l.kernel_data_start_addr then 0 else 1;
    })
    else none

entries-low : (l : Layout) (p : ℕ) → p < 512 → entries l p ≡ p * 4096 + 3
entries-low l p h = ground arith

module _ (l : Layout) (linked : IsLinked l) (p : ℕ) (high : 512 ≤ p) where
  entries-outside : p < first l ⊎ (past l ≤ p) → entries l p ≡ 0
  entries-outside h = ground arith

  entries-guard : p * 4096 ≡ l.stack_guard_addr → entries l p ≡ 0
  entries-guard h = ground arith

  module _ (above : first l ≤ p) (below : p < past l) (other : p * 4096 ≢ l.stack_guard_addr) where
    entries-image :
        (a : ℕ)
        → (if ltb (p * 4096) l.kernel_data_start_addr then 1 else 3) ≡ a
        → entries l p ≡ p * 4096 - kernel_virtual_base + a
    entries-image a e = ground arith

leads-page :
    (base a v : ℕ)
    → base % 4096 ≡ 0
    → a < 4096
    → a % 2 ≡ 1
    → leads (base + a) v ≡ some (record { phys = base + v % 4096; writable = a / 2 % 2 })
leads-page base a v aligned low present = ground arith

-- Where the pages above the low ones lead.
module _ (l : Layout) (linked : IsLinked l) (v : ℕ) (high : 0x20_0000 ≤ v) where
  view-nothing : entries l (v / 4096) ≡ 0 → leads (entries l (v / 4096)) v ≡ none
  view-nothing e = rw e refl

  view-outside :
      (v / 4096 < first l) ⊎ (past l ≤ v / 4096) → leads (entries l (v / 4096)) v ≡ kernel_view l v
  view-outside h = view-nothing (entries-outside l linked (v / 4096) (omega arith) h) ∙ ground arith

  view-guard :
      v / 4096 * 4096 ≡ l.stack_guard_addr → leads (entries l (v / 4096)) v ≡ kernel_view l v
  view-guard h = view-nothing (entries-guard l linked (v / 4096) (omega arith) h) ∙ ground arith

  module _ (above : first l ≤ v / 4096) (below : v / 4096 < past l)
      (other : v / 4096 * 4096 ≢ l.stack_guard_addr) where
    view-image :
        (a : ℕ)
        → (if ltb (v / 4096 * 4096) l.kernel_data_start_addr then 1 else 3) ≡ a
        → a < 4096
        → a % 2 ≡ 1
        → a / 2 % 2 ≡ (if ltb v l.kernel_data_start_addr then 0 else 1)
        → leads (entries l (v / 4096)) v ≡ kernel_view l v
    view-image a e low present writable =
        ap (λ x. leads x v) (entries-image l linked (v / 4096) (omega arith) above below other a e)
        ∙ leads-page (v / 4096 * 4096 - kernel_virtual_base) a v (omega arith) low present
        ∙ ground arith

  view-high : leads (entries l (v / 4096)) v ≡ kernel_view l v
  view-high = elim (lt_or_le (v / 4096) (first l)) [
    | inl before ↦ view-outside (inl before)
    | inr above ↦ elim (lt_or_le (v / 4096) (past l)) [
      | inr after ↦ view-outside (inr after)
      | inl below ↦ elim (ℕ_discrete (v / 4096 * 4096) l.stack_guard_addr) [
        | yes guard ↦ view-guard guard
        | no other ↦ elim (lt_or_le v l.kernel_data_start_addr) [
          | inl text ↦
              view-image above below other 1 (ground arith) (omega arith) refl (ground arith)
          | inr writable ↦
              view-image above below other 3 (ground arith) (omega arith) refl (ground arith)
        ]
      ]
    ]
  ]

leads-view : (l : Layout) (v : ℕ) → IsLinked l → leads (entries l (v / 4096)) v ≡ kernel_view l v
leads-view l v linked = elim (lt_or_le v 0x20_0000) [
  | inr high ↦ view-high l linked v high
  | inl low ↦
      ap (λ x. leads x v) (entries-low l (v / 4096) (omega arith))
      ∙ leads-page (v / 4096 * 4096) 3 v (omega arith) (omega arith) refl
      ∙ ground arith
]

-- A built directory with the kernel's entries implements the kernel's view.
pub IsBuilt-view :
    (l : Layout) (pd : ℕ) (s : Build)
    → IsLinked l
    → IsBuilt pd (entries l) s
    → (v : ℕ) → v / 2 ^ 22 < 1023
    → translate (s.memory pd) s.memory v ≡ kernel_view l v
IsBuilt-view l pd s linked built v h =
    IsBuilt-translate pd (entries l) s built v h ∙ leads-view l v linked

-- With a linked image that ends within the first 4 MiB, and three free frames below 4 MiB that the search
-- reaches, `init` does not fail, and the processor walks the directory that it loads, for every address
-- below the last slot, to exactly the kernel's view: the first 2 MiB at their own addresses, the image in
-- the higher half, its text read-only, and nothing at the page below the stack or anywhere else. The
-- directory lies in the low 4 MiB, and its last slot holds the directory itself.
pub init-translate :
    (l : Layout) (s : Build)
    → IsLinked l
    → IsSmall l
    → HasFrames s.allocator 3
    → (pd : ℕ) × (s' : Build) × (init l s ≡ ok (pd, s'))
      × (pd < 1024)
      × ((v : ℕ) → v / 2 ^ 22 < 1023 → translate (s'.memory pd) s'.memory v ≡ kernel_view l v)
      × (s'.memory pd 1023 ≡ pd * 4096 + 3)
init-translate l s linked small frames =
    let (pd, s', e, built) = init-IsBuilt l s linked small frames in
    (pd, s', e, built.low, IsBuilt-view l pd s' linked built, built.self)
