-- ===== src/Vga/Written.antt =====
-- src/vga.rs: a text that stands on a row of the screen.
use zkrnl.Base.{
  ℕ, ◌+◌, ◌-◌, ◌*◌, ◌≤◌, ◌<◌, ◌≡◌, [], ◌∷◌, arith, ◌==◌, if◌then◌else◌, inl, inr, ◌∙◌, length,
}
use mathlib.Core.Path.{subst}
use zkrnl.Text.{Bytes}
use zkrnl.Text.Ascii.{IsLine}
use zkrnl.Vga.{Display}
use zkrnl.Vga.Screen.{IsOnScreen, cell}
use zkrnl.Vga.Typing.{Types}
use zkrnl.Vga.Terminal.{TypesByte, TypesAll}
use zkrnl.Vga.Rows.{Moves, Moves-refl, Types-Moves, Moves-trans, same_row}

-- A text on the row `r` from a column on, in a color.
abbrev pub Written : Display → ℕ → ℕ → ℕ → Bytes → Type 0
Written d r col color [] = Unit
Written d r col color (byte ∷ text) =
    (cell d r col 0 ≡ byte) × (cell d r col 1 ≡ color) × Written d r (col + 1) color text

char-Types :
    {byte : ℕ} {d d' : Display}
    → 0x20 ≤ byte
    → d.writer.col < 80
    → TypesByte byte d d'
    → Types byte d d'
char-Types p q (inl (feed, line)) = absurd (omega arith)
char-Types p q (inr (char, inl (inside, types))) = types
char-Types p q (inr (char, inr (full, wrapped))) = absurd (omega arith)

-- Typed where its row has room, it stands there.
pub line-Written :
    (text : Bytes) {d d' : Display}
    → IsOnScreen d
    → IsLine text
    → d.writer.col + length text ≤ 80
    → TypesAll text d d'
    → Written d' d.writer.row d.writer.col d.writer.color text
      × Moves 0 (d.writer.col + length text) d d'
line-Written [] {d} on h fits e =
    (tt, rw e (subst (λ n. Moves 0 n d d) (omega arith) (Moves-refl d on)))
line-Written (byte ∷ text) {d} {d'} on (p, ps) fits (e, typed, rest) =
    let types = char-Types p (omega arith) typed in
    let on' : IsOnScreen e = record {
      col = omega (arith, types.col);
      row = omega (arith, types.row, on.row);
    } in
    let (written, moves) = line-Written text on' ps (omega (arith, types.col)) rest in
    let there : d.writer.row + (e.writer.row + 0 - 24) ≡ d.writer.row =
      omega (arith, types.row, on.row) in
    let stays : (k : ℕ)
        → k < 2
        → cell d' d.writer.row d.writer.col k ≡ (if k == 0 then byte else d.writer.color) =
      λ k l.
        moves.kept d.writer.row d.writer.col k (omega (arith, types.row, types.col, on.row))
          (omega arith) l
        ∙ same_row e _ _ d.writer.col k there
        ∙ types.cells d.writer.row d.writer.col k on.row (omega arith) l
        ∙ ground arith in
    (
      (
        stays 0 (omega arith),
        stays 1 (omega arith),
        rw (types.row, types.col, types.color) at written,
      ),
      subst (λ n. Moves 0 n d d') (omega (arith, types.col))
          (Moves-trans on.row (Types-Moves on.row (omega arith) types) moves),
    )

-- What is written above the cursor moves with the rest.
pub Written-Moves :
    {n c' : ℕ} {d d' : Display} (r col color : ℕ) (text : Bytes)
    → Moves n c' d d'
    → (r + (d.writer.row + n - 24)) * 80 + (col + length text) ≤ d.writer.row * 80 + d.writer.col
    → col + length text ≤ 80
    → Written d (r + (d.writer.row + n - 24)) col color text
    → Written d' r col color text
Written-Moves r col color [] moves above fits h = tt
Written-Moves r col color (byte ∷ text) moves above fits (at, colored, rest) = (
  moves.kept r col 0 (omega arith) (omega arith) (omega arith) ∙ at,
  moves.kept r col 1 (omega arith) (omega arith) (omega arith) ∙ colored,
  Written-Moves r (col + 1) color text moves (omega arith) (omega arith) rest,
)

pub written_at :
    (d : Display) (text : Bytes) {r r' col col' color color' : ℕ}
    → r ≡ r'
    → col ≡ col'
    → color ≡ color'
    → Written d r col color text
    → Written d r' col' color' text
written_at d text {r} {r'} {col} {col'} {color} {color'} same_r same_col same_color h =
    subst (λ i. Written d i col' color' text) same_r
      (subst (λ j. Written d r j color' text) same_col
        (subst (λ k. Written d r col k text) same_color h))
