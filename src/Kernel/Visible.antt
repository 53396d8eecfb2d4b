-- ===== src/Kernel/Visible.antt =====
-- src/lib.rs: the message of a panic on the screen, above the dump of 16 dwords.
use zkrnl.Base.{
  ℕ, ◌+◌, ◌-◌, ◌^◌, ◌≤◌, ◌<◌, ◌≡◌, refl, ok, Result, arith, [], ◌∷◌, false, ◌++◌, sym, ◌∙◌,
}
use mathlib.Core.Path.{subst}
use zkrnl.Text.{Bytes, codes}
use zkrnl.Text.Ascii.{is_line-IsLine}
use zkrnl.Stack.{StackBounds}
use zkrnl.Stack.Dump.{IsStack, Answers, dump_text}
use zkrnl.Stack.Rows.{dump_text-rows}
use zkrnl.Vga.{Display, print, print_color}
use zkrnl.Vga.Screen.{IsOnScreen, cell}
use zkrnl.Vga.Terminal.{TypesAll, write-TypesAll, print_color_lem}
use zkrnl.Vga.Rows.{new_rows, end_col, TypesAll-Moves, TypesAll-append, new_rows-append}
use zkrnl.Vga.Written.{line-Written, Written, Written-Moves, written_at}
use zkrnl.Kernel.{Machine, panic_handler}
use zkrnl.Kernel.Panic.{white_on_red, panic_text, panic_handler-halts}

abbrev banner : Bytes
banner = codes "KERNEL PANIC"

end_col-feed : (text : Bytes) (col : ℕ) → end_col (text ++ codes "\n") col ≡ 0
end_col-feed [] col = refl
end_col-feed (byte ∷ text) col = end_col-feed text _

-- The panic's text, typed: the banner fills the start of a row, and the rest ends `n` rows below it.
record IsTyped (n : ℕ) (color : ℕ) (d : Display) : Type 0 where
  pub top : ℕ
  pub written : Written d top 0 color banner
  pub row : d.writer.row ≡ top + n
  pub last : d.writer.row < 25
  pub col : d.writer.col ≡ 0

-- It does not depend on the writer's color.
same-IsTyped :
    {n color : ℕ} (d d' : Display)
    → d'.writer.row ≡ d.writer.row
    → d'.writer.col ≡ d.writer.col
    → d'.memory ≡ d.memory
    → IsTyped n color d
    → IsTyped n color d'
same-IsTyped {color} d d' row col memory typed = record {
  top = typed.top;
  written =
      subst
        (λ bytes. Written (record { writer = d'.writer; memory = bytes }) typed.top 0 color banner)
        (sym memory) typed.written;
  row = row ∙ typed.row;
  last = omega (arith, row, typed.last);
  col = col ∙ typed.col;
}

panic_text-rows :
    (message : Bytes) → new_rows (codes "\n" ++ (message ++ codes "\n")) 12 ≡ 2 + new_rows message 0
panic_text-rows message = omega (arith, new_rows-append message (codes "\n") 0)

panic_text-IsTyped :
    (message : Bytes) (d e : Display)
    → new_rows message 0 ≤ 22
    → IsOnScreen d
    → TypesAll (panic_text message) d e
    → IsTyped (2 + new_rows message 0) d.writer.color e
panic_text-IsTyped message d e short screen typed =
    let tail : Bytes = codes "\n" ++ (message ++ codes "\n") in
    let (f, fed, rest) = TypesAll-append (codes "\n") (banner ++ tail) d e typed in
    let (g, line, more) = TypesAll-append banner tail f e rest in
    let down = TypesAll-Moves (codes "\n") screen fed in
    let screen' : IsOnScreen f = record {
      col = omega (arith, down.col);
      row = omega (arith, down.row);
    } in
    let (written, moves) =
      line-Written banner screen' (is_line-IsLine banner refl) (omega (arith, down.col)) line in
    let screen'' : IsOnScreen g = record {
      col = omega (arith, moves.col, down.col);
      row = omega (arith, moves.row);
    } in
    let after = TypesAll-Moves tail screen'' more in
    let at : g.writer.col ≡ 12 = omega (arith, moves.col, down.col) in
    let rows : new_rows tail g.writer.col ≡ 2 + new_rows message 0 = panic_text-rows message in
    let gone : ℕ = g.writer.row + new_rows tail g.writer.col - 24 in
    let same : f.writer.row ≡ f.writer.row - gone + gone =
      omega (arith, rows, moves.row, screen'.row) in
    record {
      top = f.writer.row - gone;
      written =
          Written-Moves (f.writer.row - gone) 0 d.writer.color banner after
            (omega (arith, at, moves.row, screen'.row, same)) (omega arith)
            (written_at g banner same down.col down.color written);
      row = omega (arith, after.row, rows, moves.row, screen'.row);
      last = omega (arith, after.row);
      col = after.col ∙ end_col-feed (codes "\n" ++ message) g.writer.col;
    }

-- What one display showed on the `rows` rows before its cursor's, which begin with the banner, stands on
-- the other from row `top` on.
pub record StaysVisible (rows color : ℕ) (shown d : Display) : Type 0 where
  pub top : ℕ
  pub gone : ℕ
  pub banner_row : Written d top 0 color banner
  pub height : shown.writer.row ≡ top + gone + rows
  pub kept :
      (r c k : ℕ)
      → top ≤ r
      → r + gone < shown.writer.row
      → c < 80
      → k < 2
      → cell d r c k ≡ cell shown (r + gone) c k

print-StaysVisible :
    (text : Bytes) (n color : ℕ) (d d' : Display)
    → IsOnScreen d
    → IsTyped n color d
    → 0 < n
    → n + new_rows text 0 ≤ 24
    → print text d ≡ ok d'
    → StaysVisible n color d d'
unfolding print
print-StaysVisible text n color d d' screen typed some short e =
    let (d'', written, all, screen', outside, kept) = write-TypesAll text d screen in
    let same : d'' ≡ d' = ground arith in
    let moves = TypesAll-Moves text screen (subst (TypesAll text d) same all) in
    let rows : new_rows text d.writer.col ≡ new_rows text 0 = rw typed.col refl in
    let gone : ℕ = d.writer.row + new_rows text d.writer.col - 24 in
    let there : typed.top ≡ typed.top - gone + gone = omega (arith, rows, typed.row, typed.last) in
    record {
      top = typed.top - gone;
      gone = gone;
      banner_row =
          Written-Moves (typed.top - gone) 0 color banner moves (omega (arith, there, typed.row))
            (omega arith) (written_at d banner there refl refl typed.written);
      height = omega (arith, there, typed.row);
      kept = λ r c k p q w l. moves.kept r c k (omega arith) w l;
    }

-- On a stack of 32-bit words and a message that begins at most five rows, by line feeds and wraps, the
-- panic handler, first entered with the cursor on the screen, returns with its banner still on the screen
-- and the message below it: all the rows of that text that stood there before the dump, the one of the
-- banner, the first of the message and those that it began, stand there after it, moved up together.
pub panic_handler-StaysVisible :
    (stack : StackBounds) (load : ℕ → Result ℕ) (words : ℕ → ℕ) (esp : ℕ) (message : Bytes)
    (m : Machine)
    → IsStack stack
    → Answers stack load words
    → ((a : ℕ) → words a < 2 ^ 32)
    → esp < 2 ^ 32
    → IsOnScreen m.display
    → m.panicking ≡ false
    → new_rows message 0 ≤ 5
    → (m' : Machine) × (panic_handler stack load esp message m ≡ ok m')
      × ((d : Display) × (print_color white_on_red (panic_text message) m.display ≡ ok d)
          × StaysVisible (2 + new_rows message 0) white_on_red d m'.display)
panic_handler-StaysVisible stack load words esp message m is_stack answers u32 inside screen first
      short =
    let (m', e, (d, printed, color, dumped), screened, build, again) =
      panic_handler-halts stack load words esp message m is_stack answers screen first in
    let (d', printed', color', screen', outside, (f, typed, row, col, memory)) =
      print_color_lem white_on_red (panic_text message) m.display screen in
    let same : d' ≡ d = ground arith in
    let text : IsTyped (2 + new_rows message 0) white_on_red f =
      panic_text-IsTyped message _ f (omega arith) (record { col = screen.col; row = screen.row })
        typed in
    let text' = same-IsTyped f d' row col memory text in
    let dump = dump_text-rows stack words esp 16 is_stack u32 inside in
    (
      m',
      e,
      (
        d,
        printed,
        print-StaysVisible (dump_text stack words esp 16) (2 + new_rows message 0) _ d m'.display
            (subst IsOnScreen same screen') (subst (IsTyped _ _) same text') (omega arith)
            (omega (arith, dump)) dumped,
      ),
    )
