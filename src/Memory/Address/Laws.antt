-- ===== src/Memory/Address/Laws.antt =====
-- Rounding to frames and pages, and the two-level indices of a virtual address.
use zkrnl.Base.{
  ℕ, ◌+◌, ◌*◌, ◌/◌, ◌%◌, ◌^◌, ◌≤◌, ◌<◌, bit_or, ◌≡◌, ◌↔◌, true, ok, panic, overflow, arith, ◌⊎◌,
  inl, inr, lt_or_le, ap,
}
use zkrnl.Word.Bit.{bit_and-mask, bit_or-fields}
use zkrnl.Memory.Address.{frame_floor, frame_ceil, is_frame_aligned, base_addr}
use zkrnl.Memory.Address.Virt.{pd_index, pt_index, offset, from_indices}

pub indices_as_arith :
    (a : ℕ)
    → (pd_index a ≡ a / 2 ^ 22) × (pt_index a ≡ a / 2 ^ 12 % 2 ^ 10) × (offset a ≡ a % 2 ^ 12)
unfolding pd_index pt_index offset
indices_as_arith a = omega (arith, bit_and-mask 10 (a / 2 ^ 12), bit_and-mask 12 a)

from_indices_as_sum :
    (pd pt off : ℕ)
    → pd < 1024
    → pt < 1024
    → off < 4096
    → from_indices pd pt off ≡ pd * 2 ^ 22 + pt * 2 ^ 12 + off
unfolding from_indices
from_indices_as_sum pd pt off p q r =
    let high : pd * 2 ^ 22 % 2 ^ 32 ≡ pd * 2 ^ 10 * 2 ^ 12 = omega arith in
    let middle : pt * 2 ^ 12 % 2 ^ 32 ≡ pt * 2 ^ 12 = omega arith in
    let tables : bit_or (pd * 2 ^ 22) (pt * 2 ^ 12) ≡ (pd * 2 ^ 10 + pt) * 2 ^ 12 =
      omega (arith, bit_or-fields 22 pd (pt * 2 ^ 12) (omega arith)) in
    ground (
      arith,
      bit_or-fields 12 (pd * 2 ^ 10 + pt) off r,
      tables,
      ap (λ (t : ℕ). bit_or t (pt * 2 ^ 12)) high,
    )

-- Every 32-bit virtual address is rebuilt from its directory index, table index and offset, which
-- lie below 1024, 1024 and 4096.
from_indices-indices :
    (a : ℕ)
    → a < 2 ^ 32
    → (from_indices (pd_index a) (pt_index a) (offset a) ≡ a)
      × (pd_index a < 1024)
      × (pt_index a < 1024)
      × (offset a < 4096)
from_indices-indices a h =
    ground (arith, indices_as_arith a, from_indices_as_sum (pd_index a) (pt_index a) (offset a))

-- An address built from indices in range has those indices.
indices-from_indices :
    (pd pt off : ℕ)
    → pd < 1024
    → pt < 1024
    → off < 4096
    → (pd_index (from_indices pd pt off) ≡ pd)
      × (pt_index (from_indices pd pt off) ≡ pt)
      × (offset (from_indices pd pt off) ≡ off)
indices-from_indices pd pt off p q r =
    omega (arith, indices_as_arith (from_indices pd pt off), from_indices_as_sum pd pt off p q r)

-- The frames that a range of bytes touches, and those it covers: a byte address `a` below 4 GiB lies
-- in frame `frame_floor a`, `frame_ceil a` is the least frame that starts at or after `a`, the two
-- agree exactly on the aligned addresses and differ by one elsewhere, and no frame index exceeds the
-- number of frames.
frame_floor-frame_ceil :
    (a : ℕ)
    → a < 2 ^ 32
    → (frame_floor a * 4096 ≤ a)
      × (a < (frame_floor a + 1) * 4096)
      × ((n : ℕ) → (frame_ceil a ≤ n) ↔ (a ≤ n * 4096))
      × ((frame_ceil a ≡ frame_floor a) ↔ (is_frame_aligned a ≡ true))
      × (frame_ceil a ≤ frame_floor a + 1)
      × (frame_ceil a ≤ 2 ^ 20)
unfolding frame_floor frame_ceil is_frame_aligned
frame_floor-frame_ceil a h =
    (omega arith, omega arith, λ n. ground arith, ground arith, ground arith, ground arith)

-- A frame below the 4 GiB limit has its base address, which is aligned and floors to that frame; the
-- exclusive end of the address space has none: the product overflows.
frame_floor-base_addr :
    (n : ℕ)
    → ((n < 2 ^ 20)
        × (base_addr n ≡ ok (n * 4096))
        × (frame_floor (n * 4096) ≡ n)
        × (is_frame_aligned (n * 4096) ≡ true))
      ⊎ ((2 ^ 20 ≤ n) × (base_addr n ≡ panic overflow))
unfolding frame_floor base_addr is_frame_aligned
frame_floor-base_addr n = elim (lt_or_le n (2 ^ 20)) [
  | inl below ↦ inl (below, ground arith, omega arith, ground arith)
  | inr past ↦ inr (past, ground arith)
]
