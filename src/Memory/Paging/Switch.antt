-- ===== src/Memory/Paging/Switch.antt =====
-- src/memory/paging.rs: the assembly at the end of `init`, which makes the new directory the current one.
use zkrnl.Base.{
  ℕ, ◌-◌, ◌*◌, ◌^◌, ◌<◌, bit_or, ◌≡◌, refl, ok, Result, arith, ◌==◌, if◌then◌else◌, Bool, ◌||◌,
  ◌>>=◌, lt→ltb,
}
use zkrnl.Word.Bit.{bit, bit-bit_or, bit-le-one, bit-mul-pow, bit-ones}
use zkrnl.Memory.Address.{FrameNumber, base_addr}
use zkrnl.Memory.Paging.Translate.{Translation}

-- The control registers that the kernel writes.
pub record ControlRegisters : Type 0 where
  pub cr0 : ℕ
  pub cr3 : ℕ

-- `CR0.WP`
abbrev pub cr0_wp : ℕ
cr0_wp = 2 ^ 16

-- `mov cr3, pd; mov tmp, cr0; or tmp, CR0_WP; mov cr0, tmp`
unfoldable pub load_directory : FrameNumber → ControlRegisters → Result ControlRegisters
load_directory pd r = do base ← base_addr pd; ok (record { cr3 = base; cr0 = bit_or r.cr0 cr0_wp })

-- Whether the kernel may write to a page: without the write-protect bit it may write to any.
abbrev pub kernel_may_write : ControlRegisters → Translation → Bool
kernel_may_write r t = bit r.cr0 16 == 0 || t.writable == 1

bit-cr0_wp : (i : ℕ) → bit cr0_wp i ≡ (if i == 16 then 1 else 0)
bit-cr0_wp i = ground (arith, bit-mul-pow 16 1 i, bit-ones 1 (i - 16))

-- The closing assembly of `paging::init`, for a directory below 4 GiB: `CR3` is its address, the
-- write-protect bit of `CR0` is set and its other bits stay, so the kernel may write exactly to the pages
-- that are writable.
pub load_directory_lem :
    (pd : FrameNumber) (r : ControlRegisters)
    → pd < 2 ^ 20
    → (r' : ControlRegisters) × (load_directory pd r ≡ ok r')
      × (r'.cr3 ≡ pd * 4096)
      × ((i : ℕ) → bit r'.cr0 i ≡ (if i == 16 then 1 else bit r.cr0 i))
      × ((t : Translation) → kernel_may_write r' t ≡ (t.writable == 1))
unfolding load_directory base_addr
load_directory_lem pd r h =
    let bits : (i : ℕ) → bit (bit_or r.cr0 cr0_wp) i ≡ (if i == 16 then 1 else bit r.cr0 i) =
      λ i. ground (arith, bit-bit_or r.cr0 cr0_wp i, bit-cr0_wp i, bit-le-one r.cr0 i) in
    (
      record { cr3 = pd * 4096; cr0 = bit_or r.cr0 cr0_wp },
      rw (lt→ltb (pd * 4096) (2 ^ 32) (omega arith)),
      refl,
      bits,
      λ t. ground (arith, bits 16),
    )
