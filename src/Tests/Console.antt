-- ===== src/Tests/Console.antt =====
-- The text writer at concrete inputs.
use zkrnl.Base.{ℕ, ◌+◌, ◌-◌, ◌≡◌, [], ◌∷◌, ok, arith, if◌then◌else◌}
use zkrnl.Utils.Bits.Mask.{within}
use zkrnl.Volatile.{copy}
use zkrnl.Volatile.Move.{copy_lem}
use zkrnl.Vga.{Display, new, write}
use zkrnl.Vga.Screen.{IsOnScreen, Outside}
use zkrnl.Vga.Terminal.{TypesAll, write-TypesAll}

copy_lem_example :
    (moved : ℕ → ℕ) × (copy 10 12 5 (λ a. a) ≡ ok moved)
    × ((a : ℕ) → moved a ≡ (if within 12 (12 + 5) a then 10 + (a - 12) else a))
copy_lem_example = copy_lem 10 12 5 (λ a. a) (omega arith)

abbrev start : Display
start = record { writer = new; memory = λ a. 0 }

write-TypesAll_example :
    (d' : Display) × (write (0x48 ∷ 0x0A ∷ 0x69 ∷ []) start ≡ ok d')
    × TypesAll (0x48 ∷ 0x0A ∷ 0x69 ∷ []) start d'
    × IsOnScreen d'
    × Outside start d'
    × (d'.writer.color ≡ 0x0F)
write-TypesAll_example =
    write-TypesAll (0x48 ∷ 0x0A ∷ 0x69 ∷ []) start (record { col = omega arith; row = omega arith })
