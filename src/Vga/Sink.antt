-- ===== src/Vga/Sink.antt =====
-- The text writer as the console that `printk!` prints to.
use zkrnl.Base.{ℕ, ◌≡◌, refl, [], ◌∷◌, ok, sym, ◌∙◌, >>=-assoc, >>=-cong, ◌>>=◌, ◌++◌}
use zkrnl.Text.{Bytes}
use zkrnl.Console.{Console}
use zkrnl.Vga.{Display, write, write_byte, print, print_color}
use zkrnl.Vga.Screen.{IsOnScreen}
use zkrnl.Vga.Terminal.{write-TypesAll, print_color_lem}

-- Writing a text in two pieces is writing it at once.
write-append :
    (text more : Bytes) (d : Display) → write (text ++ more) d ≡ (write text d >>= write more)
unfolding write
write-append [] more d = refl
write-append (byte ∷ text) more d =
    >>=-cong (write_byte byte d) _ _ (write-append text more)
    ∙ sym (>>=-assoc (write_byte byte d) _ _)

pub print-IsOnScreen :
    (text : Bytes) (d : Display)
    → IsOnScreen d
    → (d' : Display) × (print text d ≡ ok d') × IsOnScreen d'
unfolding print
print-IsOnScreen text d on =
    let (d', e, typed, on', outside, color) = write-TypesAll text d on in (d', e, on')

pub print_color-IsOnScreen :
    (color : ℕ) (text : Bytes) (d : Display)
    → IsOnScreen d
    → (d' : Display) × (print_color color text d ≡ ok d') × IsOnScreen d'
print_color-IsOnScreen color text d on =
    let (d', e, kept, on', outside, typed) = print_color_lem color text d on in (d', e, on')

pub print-append :
    (text more : Bytes) (d : Display) → print (text ++ more) d ≡ (print text d >>= print more)
unfolding print
print-append text more d = write-append text more d

pub print-nil : (d : Display) → print [] d ≡ ok d
unfolding print write
print-nil d = refl

abbrev pub vga_console : Console Display
vga_console = record {
  printk = print;
  printk_color = print_color;
  IsReady = IsOnScreen;
  printk-IsReady = print-IsOnScreen;
  printk_color-IsReady = print_color-IsOnScreen;
  printk-nil = print-nil;
  printk-append = print-append;
}
