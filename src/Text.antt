-- ===== src/Text.antt =====
-- What the kernel uses of `core::fmt`: text as its bytes, numbers in decimal and hexadecimal with the
-- widths and flags that the source writes, and the one-line form of `debug_struct`.
pub mod Digits
pub mod Ascii
use Prim.Native.Char.{code}
use Prim.Native.String.{String}
use zkrnl.Base.{
  ℕ, zero, suc, ◌+◌, ◌-◌, ◌/◌, ◌%◌, List, [], ◌∷◌, ◌++◌, true, false, ltb, ◌==◌, if◌then◌else◌,
  length,
}

abbrev pub Bytes : Type 0
Bytes = List ℕ

-- The bytes of a literal, which is ASCII throughout.
abbrev pub codes : String → Bytes
codes String.[] = []
codes (String.◌∷◌ c s) = code c ∷ codes s

abbrev pub replicate : ℕ → ℕ → Bytes
replicate zero a = []
replicate (suc n) a = a ∷ replicate n a

-- 0-9 and a-f.
unfoldable pub digit : ℕ → ℕ
digit d = if ltb d 10 then b'0' + d else b'a' + (d - 10)

-- The digits of a number that is not 0, and nothing for 0; `n` rounds are enough for `n`.
unfoldable pub digits_from : ℕ → ℕ → ℕ → Bytes
digits_from base zero n = []
digits_from base (suc rounds) n = elim (n == 0) [
  | true ↦ []
  | false ↦ digits_from base rounds (n / base) ++ (digit (n % base) ∷ [])
]

unfoldable pub digits : ℕ → ℕ → Bytes
unfolding digits_from
digits base n = if n == 0 then b'0' ∷ [] else digits_from base n n

-- `{}` of an unsigned number.
unfoldable pub decimal : ℕ → Bytes
unfolding digits
decimal n = digits 10 n

-- `{:#x}`
unfoldable pub hex : ℕ → Bytes
unfolding digits
hex n = codes "0x" ++ digits 16 n

-- `{:#0wx}`: zeros stand between the prefix, which the width counts, and the digits.
unfoldable pub hex_padded : ℕ → ℕ → Bytes
unfolding digits
hex_padded width n =
    codes "0x" ++ (replicate (width - 2 - length (digits 16 n)) b'0' ++ digits 16 n)

-- `{:>w}` of an unsigned number.
unfoldable pub decimal_right : ℕ → ℕ → Bytes
unfolding decimal
decimal_right width n = replicate (width - length (decimal n)) b' ' ++ decimal n

-- `debug_struct(name)` with two fields, without `#`.
unfoldable pub debug_struct : Bytes → Bytes → Bytes → Bytes → Bytes → Bytes
debug_struct name field value field' value' =
    name
    ++ (codes " { "
        ++ (field
            ++ (codes ": "
                ++ (value ++ (codes ", " ++ (field' ++ (codes ": " ++ (value' ++ codes " }"))))))))
