-- ===== src/Memory/Paging/Translate.antt =====
-- The two-level walk of the processor, as the module comment of src/memory/paging.rs describes it. It is
-- the specification that the directories are held to, and reads entries by arithmetic on their fields.
use zkrnl.Base.{ℕ, ◌+◌, ◌*◌, ◌/◌, ◌%◌, ◌^◌, Option, none, some, ◌==◌, if◌then◌else◌}

-- Where an address leads and whether the page may be written.
pub record Translation : Type 0 where
  pub phys : ℕ
  pub writable : ℕ

-- Bit 0 of an entry is the present bit, bit 1 the writable bit, and bit 7 of a directory entry says that
-- it maps 4 MiB directly. `tables` gives the words of a page table by its frame.
unfoldable pub translate : (ℕ → ℕ) → (ℕ → ℕ → ℕ) → ℕ → Option Translation
translate directory tables v =
    let pde = directory (v / 2 ^ 22) in
    let pte = tables (pde / 2 ^ 12) (v / 2 ^ 12 % 2 ^ 10) in
    if pde % 2 == 0
    then none
    else if pde / 2 ^ 7 % 2 == 1
    then some (record { phys = pde / 2 ^ 22 * 2 ^ 22 + v % 2 ^ 22; writable = pde / 2 % 2 })
    else if pte % 2 == 0
    then none
    else some (record {
      phys = pte / 2 ^ 12 * 2 ^ 12 + v % 2 ^ 12;
      writable = (pde / 2 % 2) * (pte / 2 % 2);
    })
