-- ===== src/Multiboot/Encode.antt =====
-- Memory maps as the loader lays them out, and the walk as their decoder.
use zkrnl.Base.{
  ℕ, zero, suc, ◌+◌, ◌-◌, ◌/◌, ◌^◌, ◌≤◌, ◌<◌, min, ◌≡◌, ◌≢◌, refl, List, [], ◌∷◌, arith, ltb, ap,
  sym, ◌∙◌, true, false, none, some, length, take, drop, All, le→ltb_false, ◌++◌,
}
use native.Mathlib.Nat.{pow-suc}
use mathlib.Core.List.{append_assoc, append-nil}
use zkrnl.Word.Bytes.{le_bytes}
use zkrnl.Multiboot.{
  RegionKind, from_raw, MemoryMap, MemoryRegion, MmapEntry, entry_bytes, read_entry, region_of,
  le_value,
}
use zkrnl.Multiboot.Walk.{Yields, next-end, next-region}

abbrev pub replicate : ℕ → ℕ → List ℕ
replicate zero a = []
replicate (suc n) a = a ∷ replicate n a

-- The type field that the Multiboot specification gives to each kind of memory.
unfoldable pub code_of : RegionKind → ℕ
code_of RegionKind.available = 1
code_of RegionKind.acpi_reclaimable = 3
code_of RegionKind.acpi_nvs = 4
code_of RegionKind.defective = 5
code_of (RegionKind.reserved n) = n

-- Any u32 but the four codes that have a kind of their own is reserved.
unfoldable pub IsKind : RegionKind → Type 0
IsKind (RegionKind.reserved n) = (n < 2 ^ 32) × (n ≢ 1) × (n ≢ 3) × (n ≢ 4) × (n ≢ 5)
IsKind _ = Unit

-- A region as the loader lays it out, with `padding` bytes that the entry's size field counts.
pub record Laid : Type 0 where
  pub region : MemoryRegion
  pub padding : ℕ

abbrev pub IsLaid : Laid → Type 0
IsLaid e = (e.region.base < 2 ^ 64) × (e.region.len < 2 ^ 64) × IsKind e.region.kind

unfoldable pub entry_of : Laid → MmapEntry
unfolding code_of
entry_of e = record {
  size = 20 + e.padding;
  base_addr = e.region.base;
  len = e.region.len;
  kind = code_of e.region.kind;
}

-- The fields in the order of the Multiboot layout, each with its low byte first.
unfoldable pub encode : Laid → List ℕ
unfolding code_of
encode e =
    le_bytes 4 (20 + e.padding)
    ++ (le_bytes 8 e.region.base
        ++ (le_bytes 8 e.region.len
            ++ (le_bytes 4 (code_of e.region.kind) ++ replicate e.padding 0)))

unfoldable pub encode_all : List Laid → List ℕ
encode_all [] = []
encode_all (e ∷ es) = encode e ++ encode_all es

le_value-le_bytes : (n v : ℕ) → v < 256 ^ n → le_value (le_bytes n v) ≡ v
unfolding le_value le_bytes
le_value-le_bytes zero v h = omega arith
le_value-le_bytes (suc n) v h =
    omega (arith, pow-suc 256 n, le_value-le_bytes n (v / 256) (omega (arith, pow-suc 256 n)))

length-replicate : (n a : ℕ) → length (replicate n a) ≡ n
length-replicate zero a = refl
length-replicate (suc n) a = ap suc (length-replicate n a)

length-append : (xs ys : List ℕ) → length (xs ++ ys) ≡ length xs + length ys
length-append [] ys = omega arith
length-append (x ∷ xs) ys = omega (arith, length-append xs ys)

drop-append : (xs ys : List ℕ) → drop (length xs) (xs ++ ys) ≡ ys
drop-append [] ys = refl
drop-append (x ∷ xs) ys = drop-append xs ys

length-encode : (e : Laid) → length (encode e) ≡ 24 + e.padding
unfolding encode le_bytes
length-encode e = omega (arith, length-replicate e.padding 0)

code_of-lt : (k : RegionKind) → IsKind k → code_of k < 256 ^ 4
unfolding code_of IsKind
code_of-lt RegionKind.available h = omega arith
code_of-lt RegionKind.acpi_reclaimable h = omega arith
code_of-lt RegionKind.acpi_nvs h = omega arith
code_of-lt RegionKind.defective h = omega arith
code_of-lt (RegionKind.reserved n) h = omega (arith, h.0)

from_raw-code_of : (k : RegionKind) → IsKind k → from_raw (code_of k) ≡ k
unfolding code_of IsKind from_raw
from_raw-code_of RegionKind.available h = refl
from_raw-code_of RegionKind.acpi_reclaimable h = refl
from_raw-code_of RegionKind.acpi_nvs h = refl
from_raw-code_of RegionKind.defective h = refl
from_raw-code_of (RegionKind.reserved n) (small, a, b, c, d) = ground arith

region_of-entry_of : (e : Laid) → IsLaid e → region_of (entry_of e) ≡ e.region
unfolding region_of entry_of
region_of-entry_of e h i = record {
  base = e.region.base;
  len = e.region.len;
  kind = from_raw-code_of e.region.kind h.2 i;
}

-- The 24 bytes at an entry read back as the entry, whatever follows it.
read_entry-encode :
    (e : Laid) (rest : List ℕ)
    → IsLaid e
    → 20 + e.padding < 2 ^ 32
    → read_entry (take 24 (encode e ++ rest)) ≡ entry_of e
unfolding read_entry encode le_bytes entry_of
read_entry-encode e rest h size i = record {
  size = le_value-le_bytes 4 (20 + e.padding) size i;
  base_addr = le_value-le_bytes 8 e.region.base h.0 i;
  len = le_value-le_bytes 8 e.region.len h.1 i;
  kind = le_value-le_bytes 4 (code_of e.region.kind) (code_of-lt e.region.kind h.2) i;
}

-- The entry under the cursor.
entry_bytes-at :
    (m : MemoryMap) (pre bytes : List ℕ)
    → m.buf ≡ pre ++ bytes
    → m.offset ≡ length pre
    → 24 ≤ length bytes
    → entry_bytes m ≡ some (take 24 bytes)
unfolding entry_bytes
entry_bytes-at m pre bytes same at enough =
    let rest : drop m.offset m.buf ≡ bytes = rw (at, same) (drop-append pre bytes) in
    let inside : ltb (length m.buf) m.offset ≡ false =
      le→ltb_false _ _ (rw (same, at) (omega (arith, length-append pre bytes))) in
    rw (inside, rest, le→ltb_false (length bytes) 24 enough)

drop-all : (xs : List ℕ) → drop (length xs) xs ≡ []
drop-all [] = refl
drop-all (x ∷ xs) = drop-all xs

entry_bytes-end : (m : MemoryMap) → m.offset ≡ length m.buf → entry_bytes m ≡ none
unfolding entry_bytes
entry_bytes-end m at =
    let rest : drop m.offset m.buf ≡ [] = rw at (drop-all m.buf) in rw (rest) (ground arith)

unfoldable pub regions_of : List Laid → List MemoryRegion
regions_of [] = []
regions_of (e ∷ es) = e.region ∷ regions_of es

Yields-encode_from :
    (es : List Laid) (m : MemoryMap) (pre : List ℕ)
    → All IsLaid es
    → m.buf ≡ pre ++ encode_all es
    → m.offset ≡ length pre
    → length m.buf < 2 ^ 32
    → Yields m (regions_of es) true
unfolding encode_all regions_of entry_of
Yields-encode_from [] m pre laid same at short =
    next-end m (entry_bytes-end m (rw (at, same) (ap length (sym (append-nil pre)))))
Yields-encode_from (e ∷ es) m pre laid same at short =
    let rest : List ℕ = encode_all es in
    let total : length m.buf ≡ length pre + (24 + e.padding + length rest) = rw same (
      omega (
        arith,
        length-append pre (encode e ++ rest),
        length-append (encode e) rest,
        length-encode e,
      )) in
    let room : 24 ≤ length (encode e ++ rest) =
      omega (arith, length-append (encode e) rest, length-encode e) in
    let bytes = entry_bytes-at m pre (encode e ++ rest) same at room in
    let entry = read_entry-encode e rest laid.0 (omega arith) in
    let read : region_of (read_entry (take 24 (encode e ++ rest))) ≡ e.region =
      ap region_of entry ∙ region_of-entry_of e laid.0 in
    let size : (read_entry (take 24 (encode e ++ rest))).size ≡ 20 + e.padding =
      ap (λ (x : MmapEntry). x.size) entry in
    let m' : MemoryMap = record m {
      offset = min (m.offset + ((read_entry (take 24 (encode e ++ rest))).size + 4)) (2 ^ 32 - 1);
    } in
    (
      m',
      rw read at (next-region m bytes (omega arith)),
      Yields-encode_from es m' (pre ++ encode e) laid.1
          (same ∙ sym (append_assoc pre (encode e) rest))
          (omega (arith, length-append pre (encode e), length-encode e)) short,
    )

-- Decoding the memory map that a loader lays out from a list of regions, by the codes of the Multiboot
-- specification, gives back exactly these regions, their bases, lengths and kinds, in order, and then the
-- end, whatever padding the entries' size fields count, as long as the map is smaller than 4 GiB.
pub Yields-encode :
    (es : List Laid)
    → All IsLaid es
    → length (encode_all es) < 2 ^ 32
    → Yields (record { buf = encode_all es; offset = 0 }) (regions_of es) true
Yields-encode es laid short = Yields-encode_from es _ [] laid refl refl short
