-- ===== src/Vga.antt =====
-- src/vga.rs: the writer on the VGA text buffer, 25 rows of 80 cells of two bytes, a character and its
-- color, in a memory by byte addresses. Text comes as the bytes that formatting gives.
pub mod Screen
pub mod Typing
pub mod Terminal
pub mod Color
pub mod Sink
pub mod Rows
pub mod Written
use zkrnl.Base.{
  ℕ, zero, suc, ◌+◌, ◌-◌, ◌*◌, List, [], ◌∷◌, Result, ok, ◌>>=◌, add_usize, mul_usize, leb, ◌==◌,
  if◌then◌else◌, update,
}
use zkrnl.Volatile.{copy}

abbrev pub vga_buffer : ℕ
vga_buffer = 0xB8000

abbrev pub vga_width : ℕ
vga_width = 80

abbrev pub vga_height : ℕ
vga_height = 25

pub record VgaWriter : Type 0 where
  pub col : ℕ
  pub row : ℕ
  pub color : ℕ

-- `VgaWriter::new`: white on black.
abbrev pub new : VgaWriter
new = record { col = 0; row = 0; color = 0x0F }

-- The writer and the memory that it writes to.
pub record Display : Type 0 where
  pub writer : VgaWriter
  pub memory : ℕ → ℕ

-- The body of the loops of `clear` and `clear_row`: a blank in the writer's color, from cell `i` on with
-- so many cells left.
unfoldable pub blank_cells : ℕ → ℕ → ℕ → ℕ → (ℕ → ℕ) → ℕ → ℕ
blank_cells base color zero i memory = memory
blank_cells base color (suc left) i memory =
    blank_cells base color left (i + 1)
      (update (update memory (base + i * 2) 0x20) (base + (i * 2 + 1)) color)

unfoldable pub clear : Display → Display
clear d = record d {
  memory = blank_cells vga_buffer d.writer.color (vga_width * vga_height) 0 d.memory;
}

unfoldable pub clear_row : ℕ → Display → Result Display
clear_row row d = do
  start ← mul_usize row vga_width
  bytes ← mul_usize start 2
  ok (record d { memory = blank_cells (vga_buffer + bytes) d.writer.color vga_width 0 d.memory })

unfoldable pub scroll : Display → Result Display
scroll d = do
  moved ← copy (vga_buffer + vga_width * 2) vga_buffer ((vga_height - 1) * vga_width * 2) d.memory
  clear_row (vga_height - 1)
      (record { writer = record d.writer { row = vga_height - 1 }; memory = moved })

unfoldable pub newline : Display → Result Display
newline d = do
  row ← add_usize d.writer.row 1
  let moved : Display = record d { writer = record d.writer { col = 0; row = row } }
  if leb vga_height row then scroll moved else ok moved

-- The rest of `write_byte` once the cursor is inside its row.
unfoldable pub put_cell : ℕ → Display → Result Display
put_cell byte d = do
  start ← mul_usize d.writer.row vga_width
  cell ← add_usize start d.writer.col
  bytes ← mul_usize cell 2
  second ← add_usize bytes 1
  col ← add_usize d.writer.col 1
  ok (record {
    writer = record d.writer { col = col };
    memory =
        update (update d.memory (vga_buffer + bytes) byte) (vga_buffer + second) d.writer.color;
  })

unfoldable pub write_byte : ℕ → Display → Result Display
write_byte byte d =
    if byte == 0x0A
    then newline d
    else ((if leb vga_width d.writer.col then newline d else ok d) >>= put_cell byte)

unfoldable pub write : List ℕ → Display → Result Display
write [] d = ok d
write (byte ∷ bytes) d = write_byte byte d >>= write bytes

unfoldable pub reset : Display → Display
unfolding clear
reset d = clear (record d { writer = record d.writer { col = 0; row = 0 } })

-- `fmt::Write::write_str`, on the bytes of the text; it returns `Ok`.
abbrev pub write_str : List ℕ → Display → Result Display
write_str bytes d = write bytes d

-- `_print` and `_print_color`, on the bytes that the formatting hands to `write_str`.
unfoldable pub print : List ℕ → Display → Result Display
unfolding write
print bytes d = write_str bytes d

unfoldable pub print_color : ℕ → List ℕ → Display → Result Display
unfolding write
print_color color bytes d = do
  printed ← write_str bytes (record d { writer = record d.writer { color = color } })
  ok (record printed { writer = record printed.writer { color = d.writer.color } })
