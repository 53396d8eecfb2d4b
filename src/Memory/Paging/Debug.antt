-- ===== src/Memory/Paging/Debug.antt =====
-- src/memory/paging.rs and src/memory/address.rs: the `Debug` texts of flags, entries and addresses.
pub mod Names
use zkrnl.Base.{ℕ, List, ◌∷◌, if◌then◌else◌, Bool, true, false, ◌++◌, []}
use zkrnl.Text.{Bytes, codes, decimal, hex_padded, debug_struct}
use zkrnl.Memory.Address.{PhysAddr, FrameNumber}
use zkrnl.Memory.Address.Virt.{VirtAddr}
use zkrnl.Memory.Paging.Flags.{
  PageFlags, contains, present, writable, user, write_through, cache_disable, accessed, dirty,
  global,
}
use zkrnl.Memory.Paging.Entry.{frame, table_frame, flags, is_huge}

-- `NAMED`
abbrev pub named : List (PageFlags × Bytes)
named =
    (present, codes "PRESENT")
    ∷ (writable, codes "WRITABLE")
    ∷ (user, codes "USER")
    ∷ (write_through, codes "WRITE_THROUGH")
    ∷ (cache_disable, codes "CACHE_DISABLE")
    ∷ (accessed, codes "ACCESSED")
    ∷ (dirty, codes "DIRTY")
    ∷ (global, codes "GLOBAL")
    ∷ []

-- The loop over the named flags: the text that it adds, and `first` at its end.
unfoldable pub write_names : PageFlags → List (PageFlags × Bytes) → Bool → Bytes × Bool
write_names f [] first = ([], first)
write_names f ((flag, name) ∷ rest) first = elim (contains f flag) [
  | false ↦ write_names f rest first
  | true ↦
      let (text, first') = write_names f rest false in
      ((if first then [] else codes " | ") ++ (name ++ text), first')
]

unfoldable pub flags_debug : PageFlags → Bytes
unfolding write_names
flags_debug f =
    let (text, first) = write_names f named true in
    codes "PageFlags(" ++ (text ++ ((if first then codes "empty" else []) ++ codes ")"))

-- The derived `Debug` of `FrameNumber`.
unfoldable pub frame_debug : FrameNumber → Bytes
frame_debug n = codes "FrameNumber(" ++ (decimal n ++ codes ")")

unfoldable pub phys_debug : PhysAddr → Bytes
phys_debug a = codes "PhysAddr(" ++ (hex_padded 10 a ++ codes ")")

unfoldable pub virt_debug : VirtAddr → Bytes
virt_debug a = codes "VirtAddr(" ++ (hex_padded 10 a ++ codes ")")

unfoldable pub table_entry_debug : ℕ → Bytes
unfolding frame_debug flags_debug debug_struct
table_entry_debug e =
    debug_struct (codes "PageTableEntry") (codes "frame") (frame_debug (frame e)) (codes "flags")
      (flags_debug (flags e))

unfoldable pub directory_entry_debug : ℕ → Bytes
unfolding frame_debug flags_debug debug_struct
directory_entry_debug e =
    if is_huge e
    then codes "PageDirectoryEntry(huge 4 MiB, " ++ (flags_debug (flags e) ++ codes ")")
    else debug_struct (codes "PageDirectoryEntry") (codes "table_frame")
        (frame_debug (table_frame e)) (codes "flags") (flags_debug (flags e))
