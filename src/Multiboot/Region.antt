-- ===== src/Multiboot/Region.antt =====
-- Regions: the part below 4 GiB, and which raw codes are available memory.
use zkrnl.Base.{ok, Halts, returns, min, ◌-◌, ℕ, ◌+◌, ◌^◌, ◌≤◌, ◌<◌, ◌≡◌, ◌↔◌, arith, true}
use zkrnl.Multiboot.{MemoryRegion, from_raw, kind_is_available, addressable_bytes}

-- The bytes of a region below 4 GiB.
abbrev pub bytes_below_limit : MemoryRegion → ℕ
bytes_below_limit r = min (r.base + r.len) (2 ^ 32) - r.base

pub addressable_bytes-eq : (r : MemoryRegion) → addressable_bytes r ≡ ok (bytes_below_limit r)
unfolding addressable_bytes
addressable_bytes-eq r = ground arith

pub addressable_bytes-Halts : (r : MemoryRegion) → Halts (addressable_bytes r)
addressable_bytes-Halts r = rw (addressable_bytes-eq r) (returns (bytes_below_limit r) tt)

-- For any u64 base and length, also where their sum is no u64, `addressable_bytes` returns without an
-- overflow, and a byte lies in that many bytes from the base on exactly when it lies in the region and
-- below 4 GiB.
pub addressable_bytes_lem :
    (r : MemoryRegion)
    → r.base < 2 ^ 64
    → r.len < 2 ^ 64
    → (n : ℕ) × (addressable_bytes r ≡ ok n)
      × ((a : ℕ)
          → ((r.base ≤ a) × (a < r.base + n))
            ↔ ((r.base ≤ a) × (a < r.base + r.len) × (a < 2 ^ 32)))
addressable_bytes_lem r p q = (bytes_below_limit r, addressable_bytes-eq r, λ a. ground arith)

-- Code 1 alone is available memory, and no two codes give the same kind.
from_raw_lem :
    (raw raw' : ℕ)
    → ((kind_is_available (from_raw raw) ≡ true) ↔ (raw ≡ 1))
      × (from_raw raw ≡ from_raw raw' → raw ≡ raw')
unfolding from_raw kind_is_available
from_raw_lem raw raw' = (ground arith, λ e. ground arith)
