-- ===== src/Multiboot/Total.antt =====
-- The total of usable memory that the boot self-check reports.
use zkrnl.Base.{
  ℕ, zero, suc, ◌+◌, ◌^◌, ◌≤◌, ◌<◌, ◌≡◌, refl, List, [], ◌∷◌, ok, arith, if◌then◌else◌, ap, Bool,
  some, length, Halts, >>=-Ends, if-Ends, returns, panics, overflow, ltb,
}
use zkrnl.Multiboot.{
  MemoryRegion, MemoryMap, MultibootInfo, is_available, add_usable, memory_map, bytes_at,
}
use zkrnl.Multiboot.Walk.{Yields, for_regions-each, Yields-unique}
use zkrnl.Multiboot.Region.{bytes_below_limit, addressable_bytes-eq, addressable_bytes-Halts}

-- The addressable bytes of the available regions.
abbrev pub usable_bytes : List MemoryRegion → ℕ
usable_bytes [] = 0
usable_bytes (r ∷ rs) = (if is_available r then bytes_below_limit r else 0) + usable_bytes rs

-- What a region adds to the total, and that the sum fits.
pub add_usable-ok :
    (r : MemoryRegion) (total : ℕ)
    → total + 2 ^ 32 < 2 ^ 64
    → add_usable total r ≡ ok (total + usable_bytes (r ∷ []))
unfolding add_usable
add_usable-ok r total h = rw (addressable_bytes-eq r) (ground arith)

pub usable_bytes-le : (r : MemoryRegion) → usable_bytes (r ∷ []) ≤ 2 ^ 32
usable_bytes-le r = ground arith

pub length_buf-Yields :
    (m : MemoryMap) (rs : List MemoryRegion) (clean : Bool)
    → length m.buf < 2 ^ 32
    → Yields m rs clean
    → length rs ≤ length m.buf
length_buf-Yields m rs clean h y =
    let (rs', clean', short, y', loop) = for_regions-each m h in
    let (same, same') = Yields-unique m rs rs' clean clean' y y' in rw same short

pub length-Yields :
    (m : MemoryMap) (rs : List MemoryRegion) (clean : Bool)
    → length m.buf < 2 ^ 32
    → Yields m rs clean
    → length rs < 2 ^ 32
length-Yields m rs clean h y = omega (arith, length_buf-Yields m rs clean h y)

length-bytes_at : (memory : ℕ → ℕ) (addr n : ℕ) → length (bytes_at memory addr n) ≡ n
unfolding bytes_at
length-bytes_at memory addr zero = refl
length-bytes_at memory addr (suc n) = ap suc (length-bytes_at memory (addr + 1) n)

pub length-memory_map :
    (memory : ℕ → ℕ) (info : MultibootInfo) {m : MemoryMap}
    → memory_map memory info ≡ some m
    → length m.buf ≡ info.mmap_length
unfolding memory_map
length-memory_map memory info e =
    ground (arith, length-bytes_at memory info.mmap_addr info.mmap_length)

-- The running sum returns or overflows.
pub add_usable-Halts : (total : ℕ) (r : MemoryRegion) → Halts (add_usable total r)
unfolding add_usable
add_usable-Halts total r =
    if-Ends (is_available r)
      (>>=-Ends (addressable_bytes-Halts r)
        λ bytes _. if-Ends (ltb (total + bytes) (2 ^ 64)) (returns _ tt) (panics overflow λ e. cc))
      (returns _ tt)
