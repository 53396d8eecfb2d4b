-- ===== src/Tests/Words.antt =====
-- Bit masks, addresses, entries and flags at concrete inputs.
use zkrnl.Base.{ℕ, ◌+◌, ◌-◌, ◌^◌, ◌≤◌, ◌<◌, min, ◌≡◌, ok, panic, assertion, if◌then◌else◌, ◌⊎◌}
use zkrnl.Word.Bit.{bit}
use zkrnl.Utils.Bits.{clipped_bit_range_mask}
use zkrnl.Utils.Bits.Mask.{within, clipped_bit_range_mask_lem}

clipped_bit_range_mask_lem_example :
    ((32 ≤ 28) × (clipped_bit_range_mask 28 9 ≡ panic assertion))
    ⊎ ((mask : ℕ) × (clipped_bit_range_mask 28 9 ≡ ok (mask, min 9 (32 - 28)))
        × (mask < 2 ^ 32)
        × ((i : ℕ) → bit mask i ≡ (if within 28 (28 + min 9 (32 - 28)) i then 1 else 0)))
clipped_bit_range_mask_lem_example = clipped_bit_range_mask_lem 28 9
