-- ===== src/Utils/Bits.antt =====
-- src/utils/bits.rs: bit masks clipped to one u32 word.
pub mod Mask
use zkrnl.Base.{
  ℕ, ◌+◌, ◌-◌, min, bit_and, Result, ok, require, assertion, ◌>>=◌, ◌>>◌, ltb, ◌==◌, if◌then◌else◌,
}
use zkrnl.Word.{u32_max, shl32, shr32}

abbrev pub word_bits : ℕ
word_bits = 32

-- The mask, and how many bits it has. The `debug_assert!` is on in the dev profile.
unfoldable pub clipped_bit_range_mask : ℕ → ℕ → Result (ℕ × ℕ)
clipped_bit_range_mask start_bit len = do
  require (ltb start_bit word_bits) assertion
  let taken = min len (word_bits - start_bit)
  if taken == 0
      then ok (0, 0)
      else ok (
        bit_and (shl32 u32_max start_bit) (shr32 u32_max (word_bits - (start_bit + taken))),
        taken,
      )
