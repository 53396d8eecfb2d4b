-- ===== src/Gdt/Decode.antt =====
-- What the processor reads from a descriptor, and what the kernel's flat descriptors say.
use zkrnl.Base.{ℕ, ◌+◌, ◌*◌, ◌/◌, ◌%◌, ◌^◌, ◌≡◌, refl, leb, if◌then◌else◌, Option, none, some}
use zkrnl.Word.Bytes.{read_le}
use zkrnl.Gdt.{PrivilegeLevel, privilege_bits, flat, flat_code, flat_data, Gdtr, SegmentRegisters}

-- The fields of a segment descriptor, put together from where the processor expects them.
pub record Segment : Type 0 where
  pub base : ℕ
  pub limit : ℕ
  pub access : ℕ
  pub attributes : ℕ

-- Bits 0-15 and 48-51 are the limit, 16-39 and 56-63 the base, 40-47 the access byte, and 52-55 the
-- attributes: long mode, 32-bit, and 4 KiB granularity.
unfoldable pub decode : ℕ → Segment
decode raw = record {
  base = raw / 2 ^ 16 % 2 ^ 24 + raw / 2 ^ 56 % 2 ^ 8 * 2 ^ 24;
  limit = raw % 2 ^ 16 + raw / 2 ^ 48 % 2 ^ 4 * 2 ^ 16;
  access = raw / 2 ^ 40 % 2 ^ 8;
  attributes = raw / 2 ^ 52 % 2 ^ 4;
}

-- From 0 to 4 GiB in 4 KiB units, 32-bit, with that access byte.
abbrev pub flat_segment : ℕ → Segment
flat_segment access = record { base = 0; limit = 0xF_FFFF; access = access; attributes = 0b1100 }

-- The access byte of a present code or data segment: bit 7 present, bits 5-6 the privilege level, bit 4
-- no system segment, bit 3 executable, bit 1 readable or writable.
abbrev pub access_byte : ℕ → PrivilegeLevel → ℕ
access_byte executable privilege =
    2 ^ 7 + privilege_bits privilege * 2 ^ 5 + 2 ^ 4 + executable * 2 ^ 3 + 2

-- At each privilege level the kernel's code descriptor decodes to the flat 4 GiB segment that is present,
-- readable and executable at that level, and the data descriptor to the one that is present, writable
-- and not executable at that level.
flat_code-decode :
    (privilege : PrivilegeLevel)
    → (decode (flat_code privilege) ≡ flat_segment (access_byte 1 privilege))
      × (decode (flat_data privilege) ≡ flat_segment (access_byte 0 privilege))
unfolding decode flat_code flat_data privilege_bits flat
flat_code-decode PrivilegeLevel.ring0 = (refl, refl)
flat_code-decode PrivilegeLevel.ring1 = (refl, refl)
flat_code-decode PrivilegeLevel.ring2 = (refl, refl)
flat_code-decode PrivilegeLevel.ring3 = (refl, refl)

-- What the processor takes for a selector: the descriptor at its index from the register's base on, if it
-- lies within the register's limit.
abbrev pub load : (ℕ → ℕ) → Gdtr → ℕ → Option Segment
load memory gdtr selector =
    if leb (selector / 8 * 8 + 7) gdtr.limit
    then some (decode (read_le memory (gdtr.base + 8 * (selector / 8)) 8))
    else none

abbrev pub code_segment : Option Segment
code_segment = some (flat_segment (access_byte 1 PrivilegeLevel.ring0))

abbrev pub data_segment : Option Segment
data_segment = some (flat_segment (access_byte 0 PrivilegeLevel.ring0))

-- Through `cs` the processor finds in memory the flat ring 0 code segment, and through each of `ds`, `es`,
-- `fs`, `gs` and `ss` the flat ring 0 data segment, within the limit of the table.
abbrev pub LoadsFlat : (ℕ → ℕ) × SegmentRegisters → Type 0
LoadsFlat (memory, r) =
    (load memory r.gdtr r.cs ≡ code_segment)
    × (load memory r.gdtr r.ds ≡ data_segment)
    × (load memory r.gdtr r.es ≡ data_segment)
    × (load memory r.gdtr r.fs ≡ data_segment)
    × (load memory r.gdtr r.gs ≡ data_segment)
    × (load memory r.gdtr r.ss ≡ data_segment)
