-- ===== src/Gdt.antt =====
-- src/gdt.rs: the bootstrap descriptor table. A descriptor is a u64, the access byte a u8. Memory is a
-- function from byte addresses, without the stack, which lies apart from the table: `install_gdt` is what
-- its assembly leaves in memory, in the descriptor register and in the selectors.
pub mod Decode
pub mod Index
pub mod Store
use zkrnl.Base.{ℕ, ◌+◌, ◌-◌, ◌*◌, ◌/◌, ◌%◌, ◌^◌, bit_and, bit_or, List, [], ◌∷◌, ◌++◌, update}
use zkrnl.Word.Bytes.{le_bytes}

abbrev pub gdt_entry_count : ℕ
gdt_entry_count = 7

-- Bits 0-1 of a selector are the privilege level, bit 2 selects the local table, the rest is the index.
abbrev pub kernel_code_selector : ℕ
kernel_code_selector = 0b0_1000

abbrev pub kernel_data_selector : ℕ
kernel_data_selector = 0b1_0000

abbrev pub kernel_stack_selector : ℕ
kernel_stack_selector = 0b1_1000

pub data PrivilegeLevel : Type 0 where
  ring0 ring1 ring2 ring3 : PrivilegeLevel

-- `privilege as u8`
unfoldable pub privilege_bits : PrivilegeLevel → ℕ
privilege_bits ring0 = 0
privilege_bits ring1 = 1
privilege_bits ring2 = 2
privilege_bits ring3 = 3

-- `SegmentDescriptor::flat`
unfoldable pub flat : ℕ → ℕ
flat access =
    let flags : ℕ = bit_or (1 * 2 ^ 2) (1 * 2 ^ 3) in
    let limit : ℕ = 0xF_FFFF in
    let low = bit_and limit 0xFFFF in
    let with_access = bit_or low (access * 2 ^ 40 % 2 ^ 64) in
    let with_limit = bit_or with_access (bit_and (limit / 2 ^ 16) 0xF * 2 ^ 48 % 2 ^ 64) in
    bit_or with_limit (bit_and flags 0xF * 2 ^ 52 % 2 ^ 64)

unfoldable pub flat_code : PrivilegeLevel → ℕ
unfolding privilege_bits flat
flat_code privilege = flat (bit_or 0b1001_1010 (privilege_bits privilege * 2 ^ 5 % 2 ^ 8))

unfoldable pub flat_data : PrivilegeLevel → ℕ
unfolding privilege_bits flat
flat_data privilege = flat (bit_or 0b1001_0010 (privilege_bits privilege * 2 ^ 5 % 2 ^ 8))

-- `RawDescriptor::null`
abbrev pub null : ℕ
null = 0

-- `Gdt::bootstrap`
unfoldable pub bootstrap : List ℕ
unfolding flat_code flat_data
bootstrap =
    null
    ∷ flat_code ring0
    ∷ flat_data ring0
    ∷ flat_data ring0
    ∷ flat_code ring3
    ∷ flat_data ring3
    ∷ flat_data ring3
    ∷ []

pub record Gdtr : Type 0 where
  pub limit : ℕ
  pub base : ℕ

-- The bytes of a table: an entry has eight, the low one first.
unfoldable pub table_bytes : List ℕ → List ℕ
table_bytes [] = []
table_bytes (raw ∷ table) = le_bytes 8 raw ++ table_bytes table

-- Memory with some bytes written from `addr` on.
unfoldable pub store : (ℕ → ℕ) → ℕ → List ℕ → ℕ → ℕ
store memory addr [] = memory
store memory addr (b ∷ bs) = update (store memory (addr + 1) bs) addr b

-- `write_gdt`: memory with the table at `dst_addr`, and the register image.
unfoldable pub write_gdt : (ℕ → ℕ) → ℕ → (ℕ → ℕ) × Gdtr
unfolding bootstrap store table_bytes
write_gdt memory dst_addr = (
  store memory dst_addr (table_bytes bootstrap),
  record { limit = (gdt_entry_count * 8 - 1) % 2 ^ 16; base = dst_addr },
)

abbrev pub gdt_base : ℕ
gdt_base = 0x800

-- The register that holds the table's place, and the selectors in the segment registers.
pub record SegmentRegisters : Type 0 where
  pub gdtr : Gdtr
  pub cs : ℕ
  pub ds : ℕ
  pub es : ℕ
  pub fs : ℕ
  pub gs : ℕ
  pub ss : ℕ

-- `install_gdt`: memory and the registers afterwards. The far return loads `cs`; the stack pointer is the
-- same at the end.
unfoldable pub install_gdt : (ℕ → ℕ) → (ℕ → ℕ) × SegmentRegisters
unfolding write_gdt
install_gdt memory =
    let (memory', gdtr) = write_gdt memory gdt_base in
    (
      memory',
      record {
        gdtr = gdtr;
        cs = kernel_code_selector;
        ds = kernel_data_selector;
        es = kernel_data_selector;
        fs = kernel_data_selector;
        gs = kernel_data_selector;
        ss = kernel_stack_selector;
      },
    )
