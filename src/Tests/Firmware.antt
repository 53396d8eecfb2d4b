-- ===== src/Tests/Firmware.antt =====
-- The Multiboot hand-off at concrete inputs: a map with one available region of 128 MiB.
use zkrnl.Base.{
  ℕ, ◌+◌, ◌-◌, ◌^◌, ◌≤◌, ◌<◌, ◌≡◌, ◌↔◌, refl, List, [], ◌∷◌, ok, panic, overflow, Result, arith,
  ◌==◌, if◌then◌else◌, Bool, true, some, length, All, ◌>>=◌,
}
use zkrnl.Multiboot.{
  MultibootInfo, MemoryRegion, RegionKind, MemoryMap, addressable_bytes, for_regions, memory_map,
  bytes_at,
}
use mathlib.Core.Path.{subst}
use zkrnl.Word.Bytes.{le_bytes}
use zkrnl.Multiboot.Walk.{Yields, each, for_regions-each}
use zkrnl.Multiboot.Region.{addressable_bytes_lem}
use zkrnl.Multiboot.Encode.{
  Laid, IsLaid, encode, encode_all, IsKind, code_of, regions_of, Yields-encode,
}

abbrev pub ram_region : MemoryRegion
ram_region = record { base = 0; len = 0x800_0000; kind = RegionKind.available }

abbrev pub ram : Laid
ram = record { region = ram_region; padding = 0 }

abbrev pub small_map : MemoryMap
small_map = record { buf = encode_all (ram ∷ []); offset = 0 }

abbrev byte_of : List ℕ → ℕ → ℕ
byte_of [] n = 0
byte_of (b ∷ bs) n = if n == 0 then b else byte_of bs (n - 1)

abbrev pub firmware : ℕ → ℕ
firmware a = byte_of (encode_all (ram ∷ [])) (a - 0x9000)

abbrev pub info : MultibootInfo
info = record { flags = 2 ^ 6; mmap_length = 24; mmap_addr = 0x9000 }

pub memory_map-info : memory_map firmware info ≡ some small_map
unfolding memory_map bytes_at encode_all encode le_bytes code_of
memory_map-info = refl

pub small-short : length small_map.buf < 2 ^ 32
unfolding encode_all encode le_bytes code_of
small-short = omega arith

ram-IsLaid : All IsLaid (ram ∷ [])
unfolding IsKind
ram-IsLaid = ((omega arith, omega arith, tt), tt)

Yields-encode_example : Yields small_map (regions_of (ram ∷ [])) true
Yields-encode_example = Yields-encode (ram ∷ []) ram-IsLaid small-short

ram-is : regions_of (ram ∷ []) ≡ ram_region ∷ []
unfolding regions_of
ram-is = refl

pub small-Yields : Yields small_map (ram_region ∷ []) true
small-Yields =
    subst (λ rs. Yields small_map rs true) ram-is (Yields-encode (ram ∷ []) ram-IsLaid small-short)

for_regions-each_example :
    (rs : List MemoryRegion) × (clean : Bool) × (length rs ≤ length small_map.buf)
    × Yields small_map rs clean
    × ((S : Type 0) (body : S → MemoryRegion → Result S) (s : S)
        → for_regions body small_map s
          ≡ (each body rs s >>= λ s'. if clean then ok s' else panic overflow))
for_regions-each_example = for_regions-each small_map small-short

abbrev pub wide : MemoryRegion
wide = record { base = 0xFFFF_F000; len = 0x2000; kind = RegionKind.available }

addressable_bytes_lem_example :
    (n : ℕ) × (addressable_bytes wide ≡ ok n)
    × ((a : ℕ)
        → ((0xFFFF_F000 ≤ a) × (a < 0xFFFF_F000 + n))
          ↔ ((0xFFFF_F000 ≤ a) × (a < 0xFFFF_F000 + 0x2000) × (a < 2 ^ 32)))
addressable_bytes_lem_example = addressable_bytes_lem wide (omega arith) (omega arith)
