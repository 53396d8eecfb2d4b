-- ===== src/Memory/Paging/Directory/Invariant.antt =====
-- The directory under construction: its shape, and what one `map_bootstrap` adds to it.
use native.Mathlib.Decide.{ℕ_discrete}
use zkrnl.Base.{
  ℕ, ◌+◌, ◌*◌, ◌<◌, ◌≡◌, ◌≢◌, arith, ◌==◌, if◌then◌else◌, update, inl, inr, ap, sym, ◌∙◌, ◌⊎◌, ◌&&◌,
}
use zkrnl.Memory.Frame.Bitmap.{FrameBitmap}
use zkrnl.Memory.Frame.Bitmap.Update.{frame_bit}
use zkrnl.Memory.Paging.Directory.{Build, write_entry}

-- One slot of the directory in frame `pd`: either it is absent and its 1024 pages are unmapped, or it
-- points, present and writable, at a page table in another used frame of the low 4 MiB, whose words are
-- the entries of those pages.
abbrev pub IsSlot : ℕ → (ℕ → ℕ) → Build → ℕ → Type 0
IsSlot pd pte s i =
    ((s.memory pd i ≡ 0) × ((j : ℕ) → j < 1024 → pte (i * 1024 + j) ≡ 0))
    ⊎ ((t : ℕ) × (t < 1024)
        × (t ≢ pd)
        × (frame_bit s.allocator.bitmap t ≡ 0)
        × (s.memory pd i ≡ t * 4096 + 3)
        × ((j : ℕ) → j < 1024 → s.memory t j ≡ pte (i * 1024 + j)))

-- `pte` gives the page-table entry of each page, 0 for an unmapped one. No two slots share a table, and
-- the last slot points at the directory itself.
pub record IsBuilt (pd : ℕ) (pte : ℕ → ℕ) (s : Build) : Type 0 where
  pub low : pd < 1024
  pub used : frame_bit s.allocator.bitmap pd ≡ 0
  pub self : s.memory pd 1023 ≡ pd * 4096 + 3
  pub slot : (i : ℕ) → i < 1023 → IsSlot pd pte s i
  pub apart :
      (i j : ℕ) → i < 1023 → j < 1023 → i ≢ j → s.memory pd i ≢ 0 → s.memory pd i ≢ s.memory pd j

pub write_entry_lem :
    (memory : ℕ → ℕ → ℕ) (t j v f k : ℕ)
    → write_entry memory t j v f k ≡ (if f == t && j == k then v else memory f k)
unfolding write_entry
write_entry_lem memory t j v f k = ground arith

-- Writing one entry of a slot's page table maps one page.
module _ (pd t idx j v : ℕ) (pte : ℕ → ℕ) (s : Build) (b : IsBuilt pd pte s) (here : idx < 1023)
    (inside : j < 1024) (points : s.memory pd idx ≡ t * 4096 + 3) where
  abbrev pub written : Build
  written = record s { memory = write_entry s.memory t j v }

  table_ne : t ≢ pd
  table_ne e = elim (b.slot idx here) [
    | inl (absent, none_mapped) ↦ omega arith
    | inr (t', low, ne, used, at, words) ↦ ne (omega arith)
  ]

  pub written-pd : (i : ℕ) → written.memory pd i ≡ s.memory pd i
  written-pd i = ground (arith, write_entry_lem s.memory t j v pd i, table_ne)

  -- The table that is written to, and the others.
  word_of :
      (i t' k : ℕ)
      → i < 1023
      → k < 1024
      → s.memory pd i ≡ t' * 4096 + 3
      → s.memory t' k ≡ pte (i * 1024 + k)
      → written.memory t' k ≡ update pte (idx * 1024 + j) v (i * 1024 + k)
  word_of i t' k p l at word = elim (ℕ_discrete i idx) [
    | yes same ↦
        let table : t' ≡ t = omega (arith, ap (λ (x : ℕ). s.memory pd x) same) in
        ground (arith, write_entry_lem s.memory t j v t' k)
    | no other ↦
        let table : t' ≢ t = λ e. b.apart i idx p here other (λ z. omega arith) (omega arith) in
        ground (arith, write_entry_lem s.memory t j v t' k)
  ]

  written-IsSlot : (i : ℕ) → i < 1023 → IsSlot pd (update pte (idx * 1024 + j) v) written i
  written-IsSlot i p = elim (b.slot i p) [
    | inl (absent, none_mapped) ↦ inl (
      written-pd i ∙ absent,
      λ k l.
          let other : i ≢ idx = λ e. omega (arith, ap (λ (x : ℕ). s.memory pd x) e) in
          ground (arith, none_mapped k l),
    )
    | inr (t', low, ne, used, at, words) ↦
        inr (t', low, ne, used, written-pd i ∙ at, λ k l. word_of i t' k p l at (words k l))
  ]

  pub written-IsBuilt : IsBuilt pd (update pte (idx * 1024 + j) v) written
  written-IsBuilt = record {
    low = b.low;
    used = b.used;
    self = written-pd 1023 ∙ b.self;
    slot = written-IsSlot;
    apart = λ i k p q ne here. ground (arith, written-pd i, written-pd k, b.apart i k p q ne);
  }

-- A fresh, zeroed frame that a free slot is made to point at: nothing else changes.
module _ (pd t idx : ℕ) (pte : ℕ → ℕ) (s : Build) (b : IsBuilt pd pte s) (here : idx < 1023)
    (absent : s.memory pd idx ≡ 0) (allocator : FrameBitmap) (low : t < 1024)
    (fresh : frame_bit s.allocator.bitmap t ≡ 1)
    (bits : (f : ℕ)
      → frame_bit allocator.bitmap f ≡ (if f == t then 0 else frame_bit s.allocator.bitmap f)) where
  abbrev pub zeroed : ℕ → ℕ → ℕ
  zeroed f = if f == t then (λ _. 0) else s.memory f

  abbrev pub linked : Build
  linked = record { memory = write_entry zeroed pd idx (t * 4096 + 3); allocator = allocator }

  new_ne : t ≢ pd
  new_ne e = omega (arith, ap (λ (f : ℕ). frame_bit s.allocator.bitmap f) e, b.used)

  zeroed-other : (f k : ℕ) → f ≢ t → zeroed f k ≡ s.memory f k
  zeroed-other f k ne = ground arith

  zeroed_self : (k : ℕ) → zeroed t k ≡ 0
  zeroed_self k = ground arith

  pub linked-pd : (i : ℕ) → linked.memory pd i ≡ (if idx == i then t * 4096 + 3 else s.memory pd i)
  linked-pd i =
      ground (arith, write_entry_lem zeroed pd idx (t * 4096 + 3) pd i, zeroed-other pd i, new_ne)

  linked-table : (f k : ℕ) → f ≢ pd → f ≢ t → linked.memory f k ≡ s.memory f k
  linked-table f k ne ne' =
      ground (arith, write_entry_lem zeroed pd idx (t * 4096 + 3) f k, zeroed-other f k ne')

  linked-new : (k : ℕ) → linked.memory t k ≡ 0
  linked-new k =
      ground (arith, write_entry_lem zeroed pd idx (t * 4096 + 3) t k, zeroed_self k, new_ne)

  still_used : (f : ℕ) → frame_bit s.allocator.bitmap f ≡ 0 → frame_bit allocator.bitmap f ≡ 0
  still_used f used = ground (arith, bits f)

  linked-IsSlot : (i : ℕ) → i < 1023 → IsSlot pd pte linked i
  linked-IsSlot i p = elim (b.slot i p) [
    | inl (free, none_mapped) ↦ elim (ℕ_discrete idx i) [
      | yes same ↦ inr (
        t,
        low,
        new_ne,
        ground (arith, bits t),
        linked-pd i ∙ ground arith,
        λ k l. linked-new k ∙ sym (none_mapped k l),
      )
      | no other ↦ inl (linked-pd i ∙ ground arith, none_mapped)
    ]
    | inr (t', low', ne, used, at, words) ↦
        let other : idx ≢ i = λ e. omega (arith, ap (λ (x : ℕ). s.memory pd x) e) in
        let old : t' ≢ t = λ e. omega (arith, ap (λ (f : ℕ). frame_bit s.allocator.bitmap f) e) in
        inr (
          t',
          low',
          ne,
          still_used t' used,
          linked-pd i ∙ ground arith,
          λ k l. linked-table t' k ne old ∙ words k l,
        )
  ]

  old_ne : (i : ℕ) → i < 1023 → s.memory pd i ≢ t * 4096 + 3
  old_ne i p e = elim (b.slot i p) [
    | inl (free, none_mapped) ↦ omega arith
    | inr (t', low', ne, used, at, words) ↦
        let same : t' ≡ t = omega arith in
        omega (arith, ap (λ (f : ℕ). frame_bit s.allocator.bitmap f) same)
  ]

  linked-apart :
      (i j : ℕ)
      → i < 1023
      → j < 1023
      → i ≢ j
      → linked.memory pd i ≢ 0
      → linked.memory pd i ≢ linked.memory pd j
  linked-apart i j p q ne set =
      ground (arith, linked-pd i, linked-pd j, b.apart i j p q ne, old_ne i p, old_ne j q)

  pub linked-IsBuilt : IsBuilt pd pte linked
  linked-IsBuilt = record {
    low = b.low;
    used = still_used pd b.used;
    self = linked-pd 1023 ∙ ground (arith, b.self);
    slot = linked-IsSlot;
    apart = linked-apart;
  }
