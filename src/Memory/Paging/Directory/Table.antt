-- ===== src/Memory/Paging/Directory/Table.antt =====
-- The page table of a directory slot: found there, or allocated and cleared.
use zkrnl.Base.{
  ℕ, zero, suc, ◌+◌, ◌*◌, ◌<◌, ◌≡◌, ok, arith, ◌==◌, if◌then◌else◌, inl, inr, ◌∙◌, true, false,
  Bool-cases,
}
use zkrnl.Memory.Address.{base_addr}
use zkrnl.Memory.Frame.Bitmap.{FrameBitmap}
use zkrnl.Memory.Paging.Flags.{kernel_rw}
use zkrnl.Memory.Paging.Entry.{is_present, for_table}
use zkrnl.Memory.Paging.Entry.Pack.{fields_as_arith, for_table-eq}
use zkrnl.Memory.Paging.Directory.{
  Build, write_entry, alloc_frame, bootstrap_frame_ptr, zero_frame, table_of,
}
use zkrnl.Memory.Paging.Directory.Supply.{HasFrames, alloc_frame-Fresh, Supply}
use zkrnl.Memory.Paging.Directory.Invariant.{IsBuilt, linked-IsBuilt, linked-pd}

pub bootstrap_frame_ptr-ok : (f : ℕ) → f < 1024 → bootstrap_frame_ptr f ≡ ok f
unfolding bootstrap_frame_ptr base_addr
bootstrap_frame_ptr-ok f h = ground arith

pub zero_frame-ok :
    (memory : ℕ → ℕ → ℕ) (f : ℕ)
    → f < 1024
    → zero_frame memory f ≡ ok (λ g. if g == f then (λ _. 0) else memory g)
unfolding zero_frame
zero_frame-ok memory f h = rw (bootstrap_frame_ptr-ok f h)

pub for_table-rw : (f : ℕ) → f < 1024 → for_table f kernel_rw ≡ ok (f * 4096 + 3)
unfolding kernel_rw
for_table-rw f h = for_table-eq f 3 (omega arith) (omega arith)

-- Frames for later, and one more if the slot has no page table yet.
abbrev pub Budget : ℕ → ℕ → ℕ → Build → Type 0
Budget pd idx n s = HasFrames s.allocator (if s.memory pd idx == 0 then suc n else n)

Supply-less : (words : ℕ → ℕ) (n lo : ℕ) → Supply words lo (suc n) → Supply words lo n
Supply-less words zero lo s = tt
Supply-less words (suc n) lo (f, p, q, free, rest) =
    (f, p, q, free, Supply-less words n (f + 1) rest)

pub Budget-start : (pd idx n : ℕ) (s : Build) → HasFrames s.allocator (suc n) → Budget pd idx n s
Budget-start pd idx n s (v, supply) = elim (Bool-cases (s.memory pd idx == 0)) [
  | inl absent ↦ rw absent (v, supply)
  | inr set ↦ rw set (v, Supply-less s.allocator.bitmap n (s.allocator.search_hint * 32) supply)
]

pub Budget-left : (pd idx n : ℕ) (s : Build) → Budget pd idx n s → HasFrames s.allocator n
Budget-left pd idx n s budget = elim (Bool-cases (s.memory pd idx == 0)) [
  | inl absent ↦
      let (v, supply) = rw absent at budget in
      (v, Supply-less s.allocator.bitmap n (s.allocator.search_hint * 32) supply)
  | inr set ↦ rw set at budget
]

-- The slot's page table, with the directory still built, and the budget spent on it.
pub record HasTable (pd idx n : ℕ) (pte : ℕ → ℕ) (t : ℕ) (s : Build) : Type 0 where
  pub built : IsBuilt pd pte s
  pub frames : HasFrames s.allocator n
  pub points : s.memory pd idx ≡ t * 4096 + 3
  pub low : t < 1024

table_of-present :
    (pd idx n t : ℕ) (pte : ℕ → ℕ) (s : Build)
    → t < 1024
    → s.memory pd idx ≡ t * 4096 + 3
    → table_of pd idx s ≡ ok (t, s)
unfolding table_of
table_of-present pd idx n t pte s low points = ground (arith, fields_as_arith (s.memory pd idx))

table_of-absent :
    (pd idx : ℕ) (s : Build) {t : ℕ} {allocator : FrameBitmap}
    → s.memory pd idx ≡ 0
    → t < 1024
    → alloc_frame s.allocator ≡ ok (t, allocator)
    → table_of pd idx s
      ≡ ok (
        t,
        record {
          memory = write_entry (λ g. if g == t then (λ _. 0) else s.memory g) pd idx (t * 4096 + 3);
          allocator = allocator;
        },
      )
unfolding table_of
table_of-absent pd idx s {t} absent low e =
    let not_present : is_present (s.memory pd idx) ≡ false =
      rw absent (fields_as_arith 0 (omega arith)).3 in
    rw (not_present, e, zero_frame-ok s.memory t low, for_table-rw t low)

pub table_of_lem :
    (pd idx n : ℕ) (pte : ℕ → ℕ) (s : Build)
    → IsBuilt pd pte s
    → idx < 1023
    → Budget pd idx n s
    → (t : ℕ) × (s' : Build) × (table_of pd idx s ≡ ok (t, s')) × HasTable pd idx n pte t s'
table_of_lem pd idx n pte s b here budget = elim (b.slot idx here) [
  | inr (t, low, ne, used, points, words) ↦
      let set : (s.memory pd idx == 0) ≡ false = ground arith in
      (
        t,
        s,
        table_of-present pd idx n t pte s low points,
        record { built = b; frames = rw set at budget; points = points; low = low },
      )
  | inl (absent, none_mapped) ↦
      let clear : (s.memory pd idx == 0) ≡ true = ground arith in
      let (t, allocator, e, fresh) = alloc_frame-Fresh s.allocator n (rw clear at budget) in
      (
        t,
        record {
          memory = write_entry (λ g. if g == t then (λ _. 0) else s.memory g) pd idx (t * 4096 + 3);
          allocator = allocator;
        },
        table_of-absent pd idx s absent fresh.low e,
        record {
          built =
              linked-IsBuilt pd t idx pte s b here absent allocator fresh.low fresh.was_free
                fresh.bits;
          frames = fresh.more;
          points =
              linked-pd pd t idx pte s b here absent allocator fresh.low fresh.was_free fresh.bits
                idx
              ∙ ground arith;
          low = fresh.low;
        },
      )
]
