-- ===== src/Vga/Rows.antt =====
-- src/vga.rs: the rows that a text begins, and what stands above the cursor.
use zkrnl.Base.{
  ℕ, true, false, lt→leb_false, le→leb, ◌+◌, ◌-◌, ◌*◌, ◌≤◌, ◌<◌, min, ◌≡◌, refl, [], ◌∷◌, arith,
  ◌==◌, leb, if◌then◌else◌, inl, inr, lt_or_le, ◌∙◌, ◌++◌, ap,
}
use mathlib.Core.Path.{subst}
use zkrnl.Text.{Bytes}
use zkrnl.Vga.{Display}
use zkrnl.Vga.Screen.{IsOnScreen, cell}
use zkrnl.Vga.Typing.{NewLine, Types}
use zkrnl.Vga.Terminal.{TypesByte, TypesAll}

-- The rows that a byte begins from a column, and the column after it.
abbrev pub feeds : ℕ → ℕ → ℕ
feeds byte col = if byte == 0x0A then 1 else (if leb 80 col then 1 else 0)

abbrev pub next_col : ℕ → ℕ → ℕ
next_col byte col = if byte == 0x0A then 0 else (if leb 80 col then 1 else col + 1)

-- The same for a text.
abbrev pub new_rows : Bytes → ℕ → ℕ
new_rows [] col = 0
new_rows (byte ∷ text) col = feeds byte col + new_rows text (next_col byte col)

abbrev pub end_col : Bytes → ℕ → ℕ
end_col [] col = col
end_col (byte ∷ text) col = end_col text (next_col byte col)

-- The text began `n` rows, which pushed what stood before the cursor up by as many as were missing at
-- the bottom.
pub record Moves (n c' : ℕ) (d d' : Display) : Type 0 where
  pub row : d'.writer.row ≡ min (d.writer.row + n) 24
  pub col : d'.writer.col ≡ c'
  pub fits : c' ≤ 80
  pub color : d'.writer.color ≡ d.writer.color
  pub ahead : d.writer.row * 80 + d.writer.col ≤ (d.writer.row + n) * 80 + c'
  pub kept :
      (r c k : ℕ)
      → (r + (d.writer.row + n - 24)) * 80 + c < d.writer.row * 80 + d.writer.col
      → c < 80
      → k < 2
      → cell d' r c k ≡ cell d (r + (d.writer.row + n - 24)) c k

pub same_row : (d : Display) (r r' c k : ℕ) → r ≡ r' → cell d r c k ≡ cell d r' c k
same_row d r r' c k e = ap (λ i. cell d i c k) e

pub Moves-refl : (d : Display) → IsOnScreen d → Moves 0 d.writer.col d d
Moves-refl d on = record {
  row = omega (arith, on.row);
  col = refl;
  fits = on.col;
  color = refl;
  ahead = omega arith;
  kept = λ r c k p q l. same_row d r (r + (d.writer.row + 0 - 24)) c k (omega (arith, on.row));
}

NewLine-Moves : {d d' : Display} → IsOnScreen d → NewLine d d' → Moves 1 0 d d'
NewLine-Moves {d} on line = record {
  row = line.row;
  col = line.col;
  fits = omega arith;
  color = line.color;
  ahead = omega (arith, on.col);
  kept = λ r c k p q l. elim (lt_or_le d.writer.row 24) [
    | inl above ↦
        let there : d.writer.row + 1 - 24 ≡ 0 = omega arith in
        line.cells r c k (omega (arith, on.col)) q l ∙ ground arith
    | inr last ↦
        let there : d.writer.row + 1 - 24 ≡ 1 = omega (arith, on.row) in
        line.cells r c k (omega (arith, on.row, on.col)) q l ∙ ground (arith, on.row, on.col)
  ];
}

pub Types-Moves :
    {byte : ℕ} {d d' : Display}
    → d.writer.row < 25
    → d.writer.col < 80
    → Types byte d d'
    → Moves 0 (d.writer.col + 1) d d'
Types-Moves {d} p q types = record {
  row = omega (arith, types.row);
  col = types.col;
  fits = omega arith;
  color = types.color;
  ahead = omega arith;
  kept = λ r c k before w l.
      let there : d.writer.row + 0 - 24 ≡ 0 = omega arith in
      types.cells r c k (omega arith) w l ∙ ground arith;
}

pub Moves-trans :
    {m n col col' : ℕ} {d e d' : Display}
    → d.writer.row < 25
    → Moves m col d e
    → Moves n col' e d'
    → Moves (m + n) col' d d'
Moves-trans {m} {n} {d} {e} h first second = record {
  row = omega (arith, first.row, second.row);
  col = second.col;
  fits = second.fits;
  color = second.color ∙ first.color;
  ahead = omega (arith, first.row, first.col, first.ahead, second.ahead);
  kept = λ r c k before w l.
      let split : d.writer.row + (m + n) - 24 ≡ (e.writer.row + n - 24) + (d.writer.row + m - 24) =
        omega (arith, first.row) in
      second.kept r c k (omega (arith, first.row, first.col, first.ahead)) w l
      ∙ first.kept (r + (e.writer.row + n - 24)) c k (omega arith) w l
      ∙ same_row d _ _ c k (omega arith);
}

TypesByte-Moves :
    (byte : ℕ) {d d' : Display}
    → IsOnScreen d
    → TypesByte byte d d'
    → Moves (feeds byte d.writer.col) (next_col byte d.writer.col) d d'
TypesByte-Moves byte {d} {d'} on (inl (feed, line)) =
    let is_feed : (byte == 0x0A) ≡ true = ground arith in rw is_feed (NewLine-Moves on line)
TypesByte-Moves byte {d} {d'} on (inr (char, inl (inside, types))) =
    let is_char : (byte == 0x0A) ≡ false = ground arith in
    rw (is_char, lt→leb_false 80 d.writer.col inside) (Types-Moves on.row inside types)
TypesByte-Moves byte {d} {d'} on (inr (char, inr (full, (e, line, types)))) =
    let is_char : (byte == 0x0A) ≡ false = ground arith in
    let typed : Moves 0 1 e d' =
      subst (λ n. Moves 0 n e d') (omega (arith, line.col))
        (Types-Moves (omega (arith, line.row)) (omega (arith, line.col)) types) in
    rw (is_char, le→leb 80 d.writer.col (omega arith))
      (Moves-trans on.row (NewLine-Moves on line) typed)

-- A typed text moves what stood before the cursor by the rows that it began.
pub TypesAll-Moves :
    (text : Bytes) {d d' : Display}
    → IsOnScreen d
    → TypesAll text d d'
    → Moves (new_rows text d.writer.col) (end_col text d.writer.col) d d'
TypesAll-Moves [] {d} on e = rw e (Moves-refl d on)
TypesAll-Moves (byte ∷ text) {d} {d'} on (e, typed, rest) =
    let first = TypesByte-Moves byte on typed in
    let on' : IsOnScreen e = record {
      col = omega (arith, first.col, first.fits);
      row = omega (arith, first.row);
    } in
    Moves-trans on.row first (rw (← first.col) (TypesAll-Moves text on' rest))

pub TypesAll-append :
    (text more : Bytes) (d d' : Display)
    → TypesAll (text ++ more) d d'
    → (e : Display) × TypesAll text d e × TypesAll more e d'
TypesAll-append [] more d d' h = (d, refl, h)
TypesAll-append (byte ∷ text) more d d' (f, typed, rest) =
    let (e, before, after) = TypesAll-append text more f d' rest in (e, (f, typed, before), after)

pub new_rows-append :
    (text more : Bytes) (col : ℕ)
    → new_rows (text ++ more) col ≡ new_rows text col + new_rows more (end_col text col)
new_rows-append [] more col = omega arith
new_rows-append (byte ∷ text) more col =
    omega (arith, new_rows-append text more (next_col byte col))
