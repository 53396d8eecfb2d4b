-- ===== src/Word.antt =====
-- u32 words: shifts and complement with the width written out, and the bits of a number.
pub mod Step
pub mod Bit
pub mod Bytes
use zkrnl.Base.{ℕ, ◌-◌, ◌*◌, ◌/◌, ◌%◌, ◌^◌}

abbrev pub u32_max : ℕ
u32_max = 2 ^ 32 - 1

-- `x << k`, `x >> k` and `!x` on u32; the shifts are called with `k < 32` only.
abbrev pub shl32 : ℕ → ℕ → ℕ
shl32 x k = x * 2 ^ k % 2 ^ 32

abbrev pub shr32 : ℕ → ℕ → ℕ
shr32 x k = x / 2 ^ k

abbrev pub not32 : ℕ → ℕ
not32 x = u32_max - x
