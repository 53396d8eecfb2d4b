-- ===== src/Vga/Typing.antt =====
-- What one byte types: a new line, or a character at the cursor.
use zkrnl.Base.{
  ℕ, ◌+◌, ◌*◌, ◌^◌, ◌<◌, min, ◌≡◌, refl, ok, arith, ◌==◌, if◌then◌else◌, update, lt_or_le, inl, inr,
  ◌∙◌, ◌&&◌, lt→ltb, le→leb, lt→leb_false,
}
use zkrnl.Vga.{vga_buffer, Display, newline, put_cell}
use zkrnl.Vga.Screen.{cell, blank, Outside, scroll_lem}

-- The cursor goes to the start of the next row. On the last row the screen scrolls instead.
pub record NewLine (d d' : Display) : Type 0 where
  pub cells :
      (r c k : ℕ)
      → r < 25
      → c < 80
      → k < 2
      → cell d' r c k ≡ (
          if d.writer.row == 24
          then (if r == 24 then blank d.writer.color k else cell d (r + 1) c k)
          else cell d r c k)
  pub outside : Outside d d'
  pub col : d'.writer.col ≡ 0
  pub row : d'.writer.row ≡ min (d.writer.row + 1) 24
  pub color : d'.writer.color ≡ d.writer.color

-- The byte appears at the cursor in the writer's color, and the cursor moves on by one column.
pub record Types (byte : ℕ) (d d' : Display) : Type 0 where
  pub cells :
      (r c k : ℕ)
      → r < 25
      → c < 80
      → k < 2
      → cell d' r c k ≡ (
          if r == d.writer.row && c == d.writer.col
          then (if k == 0 then byte else d.writer.color)
          else cell d r c k)
  pub outside : Outside d d'
  pub col : d'.writer.col ≡ d.writer.col + 1
  pub row : d'.writer.row ≡ d.writer.row
  pub color : d'.writer.color ≡ d.writer.color

pub newline-NewLine :
    (d : Display) → d.writer.row < 25 → (d' : Display) × (newline d ≡ ok d') × NewLine d d'
unfolding newline
newline-NewLine d h = elim (lt_or_le d.writer.row 24) [
  | inl above ↦ (
    record d { writer = record d.writer { col = 0; row = d.writer.row + 1 } },
    rw (
      lt→ltb (d.writer.row + 1) (2 ^ 32) (omega arith),
      lt→leb_false 25 (d.writer.row + 1) (omega arith),
    ),
    record {
      cells = λ r c k p q l. ground arith;
      outside = λ a o. refl;
      col = refl;
      row = omega arith;
      color = refl;
    },
  )
  | inr last ↦
      let moved : Display = record d {
        writer = record d.writer { col = 0; row = d.writer.row + 1 };
      } in
      let (d', e, scrolled) = scroll_lem moved in
      (
        d',
        rw
            (
              lt→ltb (d.writer.row + 1) (2 ^ 32) (omega arith),
              le→leb 25 (d.writer.row + 1) (omega arith),
            )
            e,
        record {
          cells = λ r c k p q l. scrolled.cells r c k p q l ∙ ground arith;
          outside = scrolled.outside;
          col = scrolled.col;
          row = omega (arith, scrolled.row);
          color = scrolled.color;
        },
      )
]

pub put_cell-Types :
    (byte : ℕ) (d : Display)
    → d.writer.row < 25
    → d.writer.col < 80
    → (d' : Display) × (put_cell byte d ≡ ok d') × Types byte d d'
unfolding put_cell
put_cell-Types byte d p q =
    let at : ℕ = (d.writer.row * 80 + d.writer.col) * 2 in
    (
      record {
        writer = record d.writer { col = d.writer.col + 1 };
        memory =
            update (update d.memory (vga_buffer + at) byte) (vga_buffer + (at + 1)) d.writer.color;
      },
      ground arith,
      record {
        cells = λ r c k l m n. ground arith;
        outside = λ a o. ground arith;
        col = refl;
        row = refl;
        color = refl;
      },
    )
