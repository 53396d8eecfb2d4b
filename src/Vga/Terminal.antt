-- ===== src/Vga/Terminal.antt =====
-- `newline`, `write_byte` and `write`, as steps of a terminal of 25 rows and 80 columns.
use zkrnl.Base.{
  ℕ, ◌<◌, ◌≡◌, ◌≢◌, refl, List, [], ◌∷◌, ok, arith, ◌==◌, lt_or_le, inl, inr, ◌∙◌, true, false, ◌⊎◌,
  le→leb, lt→leb_false,
}
use native.Mathlib.Decide.{ℕ_discrete}
use zkrnl.Vga.{Display, write_byte, write, print_color}
use zkrnl.Vga.Screen.{IsOnScreen, Outside}
use zkrnl.Vga.Typing.{NewLine, Types, newline-NewLine, put_cell-Types}

-- What one byte does to the terminal: a line feed, or a character, which wraps at the end of a row.
abbrev pub TypesByte : ℕ → Display → Display → Type 0
TypesByte byte d d' =
    ((byte ≡ 0x0A) × NewLine d d')
    ⊎ ((byte ≢ 0x0A)
        × (((d.writer.col < 80) × Types byte d d')
            ⊎ ((d.writer.col ≡ 80) × ((e : Display) × NewLine d e × Types byte e d'))))

abbrev pub TypesAll : List ℕ → Display → Display → Type 0
TypesAll [] d d' = d' ≡ d
TypesAll (byte ∷ bytes) d d' = (e : Display) × TypesByte byte d e × TypesAll bytes e d'

write_byte-TypesByte :
    (byte : ℕ) (d : Display)
    → IsOnScreen d
    → (d' : Display) × (write_byte byte d ≡ ok d') × TypesByte byte d d'
unfolding write_byte
write_byte-TypesByte byte d on = elim (ℕ_discrete byte 0x0A) [
  | yes feed ↦
      let (d', e, line) = newline-NewLine d on.row in
      let is_feed : (byte == 0x0A) ≡ true = ground arith in (d', rw is_feed e, inl (feed, line))
  | no char ↦
      let is_char : (byte == 0x0A) ≡ false = ground arith in
      elim (lt_or_le d.writer.col 80) [
        | inl inside ↦
            let (d', e, types) = put_cell-Types byte d on.row inside in
            (
              d',
              rw (is_char, lt→leb_false 80 d.writer.col inside) e,
              inr (char, inl (inside, types)),
            )
        | inr full ↦
            let (wrapped, e, line) = newline-NewLine d on.row in
            let (d', e', types) =
              put_cell-Types byte wrapped (omega (arith, line.row)) (omega (arith, line.col)) in
            (
              d',
              rw (is_char, le→leb 80 d.writer.col full, e) e',
              inr (char, inr (omega arith, (wrapped, line, types))),
            )
      ]
]

-- The cursor after a byte, and the bytes that it left alone.
record Keeps (d d' : Display) : Type 0 where
  pub on_screen : IsOnScreen d'
  pub outside : Outside d d'
  pub color : d'.writer.color ≡ d.writer.color

NewLine-Keeps : {d d' : Display} → NewLine d d' → Keeps d d'
NewLine-Keeps line = record {
  on_screen = record { col = omega (arith, line.col); row = omega (arith, line.row) };
  outside = line.outside;
  color = line.color;
}

Types-Keeps :
    {byte : ℕ} {d d' : Display}
    → d.writer.row < 25
    → d.writer.col < 80
    → Types byte d d'
    → Keeps d d'
Types-Keeps p q types = record {
  on_screen = record { col = omega (arith, types.col); row = omega (arith, types.row) };
  outside = types.outside;
  color = types.color;
}

Keeps-trans : {d e f : Display} → Keeps d e → Keeps e f → Keeps d f
Keeps-trans first second = record {
  on_screen = second.on_screen;
  outside = λ a o. second.outside a o ∙ first.outside a o;
  color = second.color ∙ first.color;
}

TypesByte-Keeps : (byte : ℕ) {d d' : Display} → IsOnScreen d → TypesByte byte d d' → Keeps d d'
TypesByte-Keeps byte on (inl (feed, line)) = NewLine-Keeps line
TypesByte-Keeps byte on (inr (char, inl (inside, types))) = Types-Keeps on.row inside types
TypesByte-Keeps byte on (inr (char, inr (full, (e, line, types)))) =
    let wrapped = NewLine-Keeps line in
    Keeps-trans wrapped (Types-Keeps wrapped.on_screen.row (omega (arith, line.col)) types)

-- With the cursor on the screen, writing any bytes does not panic: it types them one after the other,
-- line feeds as new lines, the cursor stays on the screen, the color is kept, and no byte of memory
-- outside the 4000 bytes of the text buffer changes.
pub write-TypesAll :
    (bytes : List ℕ) (d : Display)
    → IsOnScreen d
    → (d' : Display) × (write bytes d ≡ ok d')
      × TypesAll bytes d d'
      × IsOnScreen d'
      × Outside d d'
      × (d'.writer.color ≡ d.writer.color)
unfolding write
write-TypesAll [] d on = (d, refl, refl, on, λ a o. refl, refl)
write-TypesAll (byte ∷ bytes) d on =
    let (e, written, typed) = write_byte-TypesByte byte d on in
    let keeps = TypesByte-Keeps byte on typed in
    let (d', rest, all_typed, on', outside, color) = write-TypesAll bytes e keeps.on_screen in
    (
      d',
      rw written rest,
      (e, typed, all_typed),
      on',
      λ a o. outside a o ∙ keeps.outside a o,
      color ∙ keeps.color,
    )

-- With the cursor on the screen, `_print_color` types the bytes in the given color, from the cursor of
-- the writer on, and leaves the writer with the color that it had, its cursor on the screen, and every
-- byte outside the buffer as it was.
pub print_color_lem :
    (color : ℕ) (bytes : List ℕ) (d : Display)
    → IsOnScreen d
    → (d' : Display) × (print_color color bytes d ≡ ok d')
      × (d'.writer.color ≡ d.writer.color)
      × IsOnScreen d'
      × Outside d d'
      × ((e : Display) × TypesAll bytes (record d { writer = record d.writer { color = color } }) e
          × (d'.writer.row ≡ e.writer.row)
          × (d'.writer.col ≡ e.writer.col)
          × (d'.memory ≡ e.memory))
unfolding print_color
print_color_lem color bytes d on =
    let colored : Display = record d { writer = record d.writer { color = color } } in
    let (e, written, typed, on', outside, kept) =
      write-TypesAll bytes colored (record { col = on.col; row = on.row }) in
    (
      record e { writer = record e.writer { color = d.writer.color } },
      rw written,
      refl,
      record { col = on'.col; row = on'.row },
      outside,
      (e, typed, refl, refl, refl),
    )
