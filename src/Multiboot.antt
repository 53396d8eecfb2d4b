-- ===== src/Multiboot.antt =====
-- src/multiboot.rs: the Multiboot information structure and the walk over the BIOS memory map.
-- Memory that the firmware wrote is a function from byte addresses. The total
-- that `print_memory_map` adds up is here, its lines are in Multiboot/Report.
pub mod Walk
pub mod Region
pub mod Total
pub mod Encode
pub mod Report
use zkrnl.Base.{
  ℕ, zero, suc, ◌+◌, ◌-◌, ◌*◌, ◌/◌, ◌^◌, min, bit_and, Bool, true, false, Option, none, some, List,
  [], ◌∷◌, Result, ok, panic, fuel_spent, overflow, ◌>>=◌, add_usize, ltb, leb, ◌==◌, if◌then◌else◌,
  length, take, drop,
}

-- The fields that the kernel reads; the ten reserved words between them are not.
pub record MultibootInfo : Type 0 where
  pub flags : ℕ
  pub mmap_length : ℕ
  pub mmap_addr : ℕ

abbrev pub flag_mmap : ℕ
flag_mmap = 2 ^ 6

pub data RegionKind : Type 0 where
  available acpi_reclaimable acpi_nvs defective : RegionKind
  reserved : ℕ → RegionKind

unfoldable pub from_raw : ℕ → RegionKind
from_raw raw =
    if raw == 1
    then available
    else if raw == 3
    then acpi_reclaimable
    else if raw == 4
    then acpi_nvs
    else if raw == 5
    then defective
    else reserved raw

unfoldable pub kind_is_available : RegionKind → Bool
kind_is_available available = true
kind_is_available _ = false

pub record MemoryRegion : Type 0 where
  pub base : ℕ
  pub len : ℕ
  pub kind : RegionKind

unfoldable pub is_available : MemoryRegion → Bool
unfolding kind_is_available
is_available r = kind_is_available r.kind

-- u64 addition that stops at the largest value.
abbrev pub saturating_add_u64 : ℕ → ℕ → ℕ
saturating_add_u64 a b = min (a + b) (2 ^ 64 - 1)

-- u64 subtraction with its overflow check.
abbrev pub sub_u64 : ℕ → ℕ → Result ℕ
sub_u64 a b = if ltb a b then panic overflow else ok (a - b)

-- `MemoryRegion::addressable_bytes`, with `LIMIT` = 1 << 32.
unfoldable pub addressable_bytes : MemoryRegion → Result ℕ
addressable_bytes r =
    if leb (2 ^ 32) r.base
    then ok 0
    else sub_u64 (min (saturating_add_u64 r.base r.len) (2 ^ 32)) r.base

pub record MemoryMap : Type 0 where
  pub buf : List ℕ
  pub offset : ℕ

-- The `len` bytes of memory from `addr` on.
unfoldable pub bytes_at : (ℕ → ℕ) → ℕ → ℕ → List ℕ
bytes_at memory addr zero = []
bytes_at memory addr (suc len) = memory addr ∷ bytes_at memory (addr + 1) len

unfoldable pub memory_map : (ℕ → ℕ) → MultibootInfo → Option MemoryMap
memory_map memory info =
    if bit_and info.flags flag_mmap == 0
    then none
    else some (record { buf = bytes_at memory info.mmap_addr info.mmap_length; offset = 0 })

-- The little-endian value of some bytes.
unfoldable pub le_value : List ℕ → ℕ
le_value [] = 0
le_value (b ∷ bs) = b + 256 * le_value bs

-- One raw entry, packed: `size` (4 bytes), `base_addr` (8), `length` (8) and `kind` (4).
pub record MmapEntry : Type 0 where
  pub size : ℕ
  pub base_addr : ℕ
  pub len : ℕ
  pub kind : ℕ

abbrev pub entry_size : ℕ
entry_size = 24

-- `read_unaligned` of an entry
unfoldable pub read_entry : List ℕ → MmapEntry
unfolding le_value
read_entry bytes = record {
  size = le_value (take 4 bytes);
  base_addr = le_value (take 8 (drop 4 bytes));
  len = le_value (take 8 (drop 12 bytes));
  kind = le_value (take 4 (drop 20 bytes));
}

unfoldable pub region_of : MmapEntry → MemoryRegion
unfolding from_raw
region_of e = record { base = e.base_addr; len = e.len; kind = from_raw e.kind }

-- `buf.get(offset..)?.get(..size_of::<MmapEntry>())?`
unfoldable pub entry_bytes : MemoryMap → Option (List ℕ)
entry_bytes m =
    if ltb (length m.buf) m.offset
    then none
    else if ltb (length (drop m.offset m.buf)) entry_size
    then none
    else some (take entry_size (drop m.offset m.buf))

-- The step past an entry: the sum `size + 4` is checked, the sum with the offset saturates.
unfoldable pub advance : MemoryMap → MmapEntry → Result MemoryMap
advance m e = do
  stride ← add_usize e.size 4
  ok (record m { offset = min (m.offset + stride) (2 ^ 32 - 1) })

-- `Iterator::next`
unfoldable pub next : MemoryMap → Result (Option (MemoryRegion × MemoryMap))
next m = elim (entry_bytes m) [
  | none ↦ ok none
  | some bytes ↦ do m' ← advance m (read_entry bytes); ok (some (region_of (read_entry bytes), m'))
]

-- `for region in map { body }`. An entry takes a byte or more, so the length of the buffer is enough
-- rounds (`Walk`).
module _ {S : Type 0} (body : S → MemoryRegion → Result S) where
  unfoldable pub for_regions_from : ℕ → MemoryMap → S → Result S
  for_regions_from zero m s = panic fuel_spent
  for_regions_from (suc n) m s = next m >>= λ r. elim r [
    | none ↦ ok s
    | some (region, m') ↦ body s region >>= for_regions_from n m'
  ]

unfoldable pub for_regions : {S : Type 0} → (S → MemoryRegion → Result S) → MemoryMap → S → Result S
unfolding for_regions_from
for_regions body m s = for_regions_from body (suc (length m.buf)) m s

-- The running total of `print_memory_map`, a u64 sum with its overflow check.
unfoldable pub add_usable : ℕ → MemoryRegion → Result ℕ
add_usable total r =
    if is_available r
    then (addressable_bytes r >>= λ bytes.
        if ltb (total + bytes) (2 ^ 64) then ok (total + bytes) else panic overflow)
    else ok total
