-- ===== src/Text/Ascii.antt =====
-- Formatted text that stays on one line.
use zkrnl.Base.{
  ℕ, zero, suc, ◌-◌, ◌/◌, ◌%◌, ◌≤◌, ◌<◌, ◌≡◌, ◌==◌, [], ◌∷◌, ◌++◌, arith, Bool, true, Bool-cases,
  leb, inl, inr, ◌&&◌, All, length,
}
use native.Mathlib.Nat.{mod-lt}
use zkrnl.Text.{Bytes, codes, replicate, digit, digits_from, digits, decimal, hex_padded}

-- The test of every byte, for literals.
abbrev pub all : (ℕ → Bool) → Bytes → Bool
all test [] = true
all test (b ∷ text) = test b && all test text

all-All :
    {P : ℕ → Type 0} (test : ℕ → Bool)
    → ((b : ℕ) → test b ≡ true → P b)
    → (text : Bytes) → all test text ≡ true
    → All P text
all-All test sound [] h = tt
all-All test sound (b ∷ text) h = (sound b (ground arith), all-All test sound text (ground arith))

pub All-append :
    (P : ℕ → Type 0) (text more : Bytes) → All P text → All P more → All P (text ++ more)
All-append P [] more h k = k
All-append P (b ∷ text) more (p, ps) k = (p, All-append P text more ps k)

replicate-All : (P : ℕ → Type 0) (n a : ℕ) → P a → All P (replicate n a)
replicate-All P zero a h = tt
replicate-All P (suc n) a h = (h, replicate-All P n a h)

-- A property of every digit is one of every number.
module _ (P : ℕ → Type 0) (digit-P : (d : ℕ) → d < 16 → P (digit d)) where
  digits_from-All : (base rounds n : ℕ) → 0 < base → base ≤ 16 → All P (digits_from base rounds n)
  unfolding digits_from
  digits_from-All base zero n p q = tt
  digits_from-All base (suc rounds) n p q = elim (Bool-cases (n == 0)) [
    | inl done ↦ rw (digits_from, done) tt
    | inr more ↦
        rw (digits_from, more)
          (All-append P (digits_from base rounds (n / base)) (digit (n % base) ∷ [])
            (digits_from-All base rounds (n / base) p q)
            (digit-P (n % base) (omega (arith, mod-lt n p)), tt))
  ]

  digits-All : (base n : ℕ) → 0 < base → base ≤ 16 → All P (digits base n)
  unfolding digits digit
  digits-All base n p q = elim (Bool-cases (n == 0)) [
    | inl nothing ↦ rw nothing (digit-P 0 (omega arith), tt)
    | inr more ↦ rw more (digits_from-All base n n p q)
  ]

  decimal-All : (n : ℕ) → All P (decimal n)
  unfolding decimal
  decimal-All n = digits-All 10 n (omega arith) (omega arith)

  hex_padded-All : (width n : ℕ) → P b'x' → All P (hex_padded width n)
  unfolding hex_padded digit
  hex_padded-All width n x =
      All-append P (codes "0x") _ (digit-P 0 (omega arith), (x, tt))
        (All-append P (replicate (width - 2 - length (digits 16 n)) b'0') (digits 16 n)
          (replicate-All P (width - 2 - length (digits 16 n)) b'0' (digit-P 0 (omega arith)))
          (digits-All 16 n (omega arith) (omega arith)))

-- A text without line feeds or other control characters.
abbrev pub IsLine : Bytes → Type 0
IsLine text = All (λ b. 0x20 ≤ b) text

abbrev pub is_line : Bytes → Bool
is_line text = all (λ b. leb 0x20 b) text

pub is_line-IsLine : (text : Bytes) → is_line text ≡ true → IsLine text
is_line-IsLine text h = all-All (λ b. leb 0x20 b) (λ b e. ground arith) text h

digit-ge : (d : ℕ) → d < 16 → 0x20 ≤ digit d
unfolding digit
digit-ge d h = ground arith

pub decimal-IsLine : (n : ℕ) → IsLine (decimal n)
decimal-IsLine n = decimal-All (λ b. 0x20 ≤ b) digit-ge n

pub hex_padded-IsLine : (width n : ℕ) → IsLine (hex_padded width n)
hex_padded-IsLine width n = hex_padded-All (λ b. 0x20 ≤ b) digit-ge width n (omega arith)
