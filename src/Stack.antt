-- ===== src/Stack.antt =====
-- src/stack.rs: the stack dump. Memory is read through `load`, which answers or faults; the
-- symbols of the stack's ends come from the boot stub (boot/boot.asm).
pub mod Dump
pub mod Rows
use zkrnl.Base.{
  ℕ, zero, suc, ◌+◌, ◌/◌, ◌%◌, min, ok, Result, ltb, leb, ◌==◌, if◌then◌else◌, not, ◌||◌, add_usize,
  sub_usize, mul_usize, ◌++◌, ◌>>=◌,
}
use zkrnl.Text.{Bytes, codes, decimal, hex_padded}
use zkrnl.Console.{Console}

pub record StackBounds : Type 0 where
  pub stack_bottom_addr : ℕ
  pub stack_top_addr : ℕ

-- The line of one dword.
unfoldable pub dword_line : ℕ → ℕ → Bytes
dword_line addr value = hex_padded 10 addr ++ (codes ": " ++ (hex_padded 10 value ++ codes "\n"))

unfoldable pub outside_line : StackBounds → ℕ → Bytes
outside_line b addr =
    hex_padded 10 addr
    ++ (codes " not within stack bounds "
        ++ (hex_padded 10 b.stack_bottom_addr
            ++ (codes "-" ++ (hex_padded 10 b.stack_top_addr ++ codes "\n"))))

module _ {S : Type 0} (c : Console S) (load : ℕ → Result ℕ) where
  -- `for i in 0..dword_count`, from `i` on with so many rounds left.
  unfoldable pub dump_dwords : ℕ → ℕ → ℕ → S → Result S
  dump_dwords addr zero i s = ok s
  dump_dwords addr (suc left) i s = do
    offset ← mul_usize i 4
    at ← add_usize addr offset
    value ← load at
    s' ← c.printk (dword_line at value) s
    dump_dwords addr left (i + 1) s'

  -- The part of `dump_stack_from` after its bounds check.
  unfoldable pub dump_within : StackBounds → ℕ → ℕ → ℕ → S → Result S
  unfolding dump_dwords
  dump_within b addr misalignment dword_count s = do
    bytes ← sub_usize b.stack_top_addr addr
    let available : ℕ = bytes / 4
    let shown : ℕ = min dword_count available
    s₁ ← c.printk (decimal shown ++ (codes "/" ++ decimal available)) s
    s₂ ←
        (if misalignment == 0
          then ok s₁
          else c.printk (codes " misaligned start address " ++ hex_padded 10 (addr + misalignment))
              s₁)
    s₃ ← c.printk (codes "\n") s₂
    dump_dwords addr shown 0 s₃

  unfoldable pub dump_stack_from : StackBounds → ℕ → ℕ → S → Result S
  unfolding dump_within outside_line
  dump_stack_from b start dword_count s = do
    s' ← c.printk (codes "stack dump: ") s
    let misalignment : ℕ = start % 4
    addr ← sub_usize start misalignment
    if ltb addr b.stack_bottom_addr || leb b.stack_top_addr addr
        then c.printk (outside_line b addr) s'
        else dump_within b addr misalignment dword_count s'

  -- `dump_stack!`, from the stack pointer that `current_esp!` reads.
  abbrev pub dump_stack : StackBounds → ℕ → ℕ → S → Result S
  dump_stack b esp dword_count s = dump_stack_from b esp dword_count s
