-- ===== src/Vga/Screen.antt =====
-- The screen that the writer shows, and the bytes that it never touches.
use zkrnl.Base.{
  ℕ, zero, suc, ◌+◌, ◌-◌, ◌*◌, ◌%◌, ◌≤◌, ◌<◌, ◌≡◌, refl, ok, arith, ◌==◌, if◌then◌else◌, update,
  ◌∙◌, false,
}
use zkrnl.Utils.Bits.Mask.{within}
use zkrnl.Volatile.Move.{copy_lem}
use zkrnl.Vga.{vga_buffer, Display, blank_cells, clear, reset, clear_row, scroll}

-- The cursor is inside a row or just behind its last cell.
pub record IsOnScreen (d : Display) : Type 0 where
  pub col : d.writer.col ≤ 80
  pub row : d.writer.row < 25

-- The byte `k` (0 the character, 1 the color) of the cell at row `r` and column `c`.
abbrev pub cell : Display → ℕ → ℕ → ℕ → ℕ
cell d r c k = d.memory (vga_buffer + ((r * 80 + c) * 2 + k))

-- A blank cell in some color.
abbrev pub blank : ℕ → ℕ → ℕ
blank color k = if k == 0 then 0x20 else color

-- No byte outside the text buffer changes.
abbrev pub Outside : Display → Display → Type 0
Outside d d' = (a : ℕ) → within vga_buffer (vga_buffer + 4000) a ≡ false → d'.memory a ≡ d.memory a

blank_cells_lem :
    (base color left i a : ℕ) (memory : ℕ → ℕ)
    → blank_cells base color left i memory a ≡ (
        if within (base + i * 2) (base + (i + left) * 2) a
        then (if (a - base) % 2 == 0 then 0x20 else color)
        else memory a)
unfolding blank_cells
blank_cells_lem base color zero i a memory = ground arith
blank_cells_lem base color (suc left) i a memory =
    blank_cells_lem base color left (i + 1) a
      (update (update memory (base + i * 2) 0x20) (base + (i * 2 + 1)) color)
    ∙ ground arith

-- What scrolling makes of the screen: each row gets the one below it, and the last row is blank.
pub record Scrolled (d d' : Display) : Type 0 where
  pub cells :
      (r c k : ℕ)
      → r < 25
      → c < 80
      → k < 2
      → cell d' r c k ≡ (if r == 24 then blank d.writer.color k else cell d (r + 1) c k)
  pub outside : Outside d d'
  pub col : d'.writer.col ≡ d.writer.col
  pub row : d'.writer.row ≡ 24
  pub color : d'.writer.color ≡ d.writer.color

-- `scroll` does not panic, moves every row of the screen up by one, blanks the last row in the writer's
-- color, puts the cursor on it, and changes no byte outside the buffer.
pub scroll_lem : (d : Display) → (d' : Display) × (scroll d ≡ ok d') × Scrolled d d'
unfolding scroll clear_row
scroll_lem d =
    let (moved, e, bytes) = copy_lem (vga_buffer + 160) vga_buffer 3840 d.memory (omega arith) in
    let blanked = λ (a : ℕ). blank_cells_lem (vga_buffer + 3840) d.writer.color 80 0 a moved in
    (
      record {
        writer = record d.writer { row = 24 };
        memory = blank_cells (vga_buffer + 3840) d.writer.color 80 0 moved;
      },
      rw e,
      record {
        cells = λ r c k p q l.
            blanked (vga_buffer + ((r * 80 + c) * 2 + k))
            ∙ ground (arith, bytes (vga_buffer + ((r * 80 + c) * 2 + k)));
        outside = λ a h. blanked a ∙ ground (arith, bytes a);
        col = refl;
        row = refl;
        color = refl;
      },
    )

-- `reset` blanks every cell of the screen in the writer's color, puts the cursor on the first cell, and
-- changes no byte outside the buffer.
reset_lem :
    (d : Display)
    → ((r c k : ℕ) → r < 25 → c < 80 → k < 2 → cell (reset d) r c k ≡ blank d.writer.color k)
      × Outside d (reset d)
      × ((reset d).writer.row ≡ 0)
      × ((reset d).writer.col ≡ 0)
      × IsOnScreen (reset d)
unfolding reset clear
reset_lem d =
    let blanked = λ (a : ℕ). blank_cells_lem vga_buffer d.writer.color 2000 0 a d.memory in
    (
      λ r c k p q l. blanked (vga_buffer + ((r * 80 + c) * 2 + k)) ∙ ground arith,
      λ a h. blanked a ∙ ground arith,
      refl,
      refl,
      record { col = omega arith; row = omega arith },
    )
