-- ===== src/Utils/Bits/Mask.antt =====
-- What the mask of `clipped_bit_range_mask` holds, bit by bit.
use zkrnl.Base.{
  ℕ, ◌+◌, ◌-◌, ◌*◌, ◌⊎◌, ◌^◌, ◌≤◌, ◌<◌, min, bit_and, ◌≡◌, Bool, ◌&&◌, ok, panic, assertion, arith,
  ltb, leb, if◌then◌else◌, inl, inr, lt_or_le,
}
use zkrnl.Word.{u32_max, shl32, shr32}
use zkrnl.Word.Bit.{
  bit, bit-zero, bit-bit_and, bit-mod-pow, bit-mul-pow, bit-ones, bit-div-pow, bit_and-le,
}
use zkrnl.Utils.Bits.{word_bits, clipped_bit_range_mask}

-- Bits `lo` to `hi - 1`.
abbrev pub within : ℕ → ℕ → ℕ → Bool
within lo hi i = leb lo i && ltb i hi

-- The mask as the code builds it.
abbrev pub range_mask : ℕ → ℕ → ℕ
range_mask lo hi = bit_and (shl32 u32_max lo) (shr32 u32_max (word_bits - hi))

pub range_mask-lt : (lo hi : ℕ) → range_mask lo hi < 2 ^ 32
range_mask-lt lo hi = omega (arith, bit_and-le (shl32 u32_max lo) (shr32 u32_max (word_bits - hi)))

pub bit-range_mask :
    (lo hi i : ℕ) → hi ≤ 32 → bit (range_mask lo hi) i ≡ (if within lo hi i then 1 else 0)
bit-range_mask lo hi i h = ground (
  arith,
  bit-bit_and (shl32 u32_max lo) (shr32 u32_max (word_bits - hi)) i,
  bit-mod-pow 32 (u32_max * 2 ^ lo) i,
  bit-mul-pow lo u32_max i,
  bit-ones 32 (i - lo),
  bit-div-pow (32 - hi) u32_max i,
  bit-ones 32 (i + (32 - hi)),
)

-- Away from the empty range the code returns that mask and its width.
pub clipped_bit_range_mask-eq :
    (start_bit len : ℕ)
    → start_bit < 32
    → 0 < len
    → clipped_bit_range_mask start_bit len
      ≡ ok (range_mask start_bit (start_bit + min len (32 - start_bit)), min len (32 - start_bit))
unfolding clipped_bit_range_mask
clipped_bit_range_mask-eq start_bit len h p = ground arith

-- For a start bit inside the word the function returns the number of requested bits that still fit,
-- and a u32 mask in which exactly that many bits from the start bit on are set. A start bit past the
-- word is the failed assertion.
pub clipped_bit_range_mask_lem :
    (start_bit len : ℕ)
    → ((32 ≤ start_bit) × (clipped_bit_range_mask start_bit len ≡ panic assertion))
      ⊎ ((mask : ℕ) × (clipped_bit_range_mask start_bit len ≡ ok (mask, min len (32 - start_bit)))
          × (mask < 2 ^ 32)
          × ((i : ℕ)
              → bit mask i
                ≡ (if within start_bit (start_bit + min len (32 - start_bit)) i then 1 else 0)))
unfolding clipped_bit_range_mask
clipped_bit_range_mask_lem start_bit len = elim (lt_or_le start_bit 32) [
  | inr past ↦ inl (past, ground arith)
  | inl inside ↦ elim (lt_or_le 0 len) [
    | inl some_bits ↦ inr (
      range_mask start_bit (start_bit + min len (32 - start_bit)),
      clipped_bit_range_mask-eq start_bit len inside some_bits,
      range_mask-lt start_bit (start_bit + min len (32 - start_bit)),
      λ i. bit-range_mask start_bit (start_bit + min len (32 - start_bit)) i (omega arith),
    )
    | inr no_bits ↦ inr (0, ground arith, omega arith, λ i. ground (arith, bit-zero i))
  ]
]
