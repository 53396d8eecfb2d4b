-- ===== src/Console.antt =====
-- src/console.rs: the macros `printk!` and `printk_color!`, as the interface between the code that
-- reports and the device that shows the text. A macro formats its arguments and hands the bytes on.
use zkrnl.Base.{ℕ, ◌≡◌, [], ◌++◌, ok, Result, ◌>>=◌}
use zkrnl.Text.{Bytes}

-- A device with the state `S`: the two operations, and what the code that prints relies on. While it is
-- ready, printing succeeds and keeps it ready, and a text may be printed in pieces.
pub record Console (S : Type 0) : Type 1 where
  pub printk : Bytes → S → Result S
  pub printk_color : ℕ → Bytes → S → Result S
  pub IsReady : S → Type 0
  pub printk-IsReady :
      (text : Bytes) (s : S) → IsReady s → (s' : S) × (printk text s ≡ ok s') × IsReady s'
  pub printk_color-IsReady :
      (color : ℕ) (text : Bytes) (s : S)
      → IsReady s
      → (s' : S) × (printk_color color text s ≡ ok s') × IsReady s'
  pub printk-nil : (s : S) → printk [] s ≡ ok s
  pub printk-append :
      (text more : Bytes) (s : S) → printk (text ++ more) s ≡ (printk text s >>= printk more)

-- The console shows a text, and is ready for more.
abbrev pub Shows : {S : Type 0} → Console S → Bytes → S → S → Type 0
Shows c text s s' = (c.printk text s ≡ ok s') × c.IsReady s'

pub Shows-append :
    {S : Type 0} (c : Console S) (text more : Bytes) {s s' s'' : S}
    → Shows c text s s'
    → Shows c more s' s''
    → Shows c (text ++ more) s s''
Shows-append c text more {s} (e, ready) (e', ready') =
    (rw (c.printk-append text more s, e) e', ready')
