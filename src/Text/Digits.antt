-- ===== src/Text/Digits.antt =====
-- Numbers in text read back as themselves, and how wide they are.
use zkrnl.Base.{
  ℕ, zero, suc, ◌+◌, ◌-◌, ◌*◌, ◌/◌, ◌%◌, ◌^◌, ◌≤◌, ◌<◌, ◌≡◌, refl, [], ◌∷◌, arith, ltb, ◌==◌,
  if◌then◌else◌, lt_or_le, inl, inr, ap, sym, ◌∙◌, Bool-cases, ◌⊎◌, length, ◌++◌,
}
use native.Mathlib.Nat.{pow-suc}
use mathlib.Core.Path.{subst}
use zkrnl.Text.{Bytes, codes, replicate, digit, digits_from, digits, decimal, hex_padded}

abbrev pub digit_value : ℕ → ℕ
digit_value c = if ltb c b'a' then c - b'0' else c - b'a' + 10

-- The number that digits stand for, after those with the value `acc`.
abbrev pub number : ℕ → ℕ → Bytes → ℕ
number base acc [] = acc
number base acc (c ∷ cs) = number base (acc * base + digit_value c) cs

abbrev pub IsBase : ℕ → Type 0
IsBase base = (base ≡ 10) ⊎ (base ≡ 16)

-- One division step.
module _ (base n : ℕ) (b : IsBase base) where
  step-value : n / base * base + n % base ≡ n
  step-value = elim b [ inl e ↦ rw e (omega arith) | inr e ↦ rw e (omega arith) ]

  step-digit : digit_value (digit (n % base)) ≡ n % base
  unfolding digit
  step-digit = elim b [ inl e ↦ rw e (ground arith) | inr e ↦ rw e (ground arith) ]

  step-lt : 0 < n → n / base < n
  step-lt pos = elim b [ inl e ↦ rw e (omega arith) | inr e ↦ rw e (omega arith) ]

  step-one : base ^ 0 ≡ 1
  step-one = elim b [ inl e ↦ rw e (omega arith) | inr e ↦ rw e (omega arith) ]

  step-pow : (k : ℕ) → n < base ^ suc k → n / base < base ^ k
  step-pow k = elim b [
    | inl e ↦ rw e (λ h. omega (arith, pow-suc 10 k))
    | inr e ↦ rw e (λ h. omega (arith, pow-suc 16 k))
  ]

number-append :
    (base acc : ℕ) (xs ys : Bytes)
    → number base acc (xs ++ ys) ≡ number base (number base acc xs) ys
number-append base acc [] ys = refl
number-append base acc (x ∷ xs) ys = number-append base (acc * base + digit_value x) xs ys

digits_from-step :
    (base rounds n : ℕ)
    → 0 < n
    → digits_from base (suc rounds) n
      ≡ digits_from base rounds (n / base) ++ (digit (n % base) ∷ [])
unfolding digits_from
digits_from-step base rounds n more = ground arith

number-digits_from :
    (base rounds n : ℕ) → IsBase base → n ≤ rounds → number base 0 (digits_from base rounds n) ≡ n
unfolding digits_from
number-digits_from base zero n b enough = omega arith
number-digits_from base (suc rounds) n b enough = elim (lt_or_le 1 (suc n)) [
  | inr none_left ↦ let nothing : n ≡ 0 = omega arith in rw nothing refl
  | inl more ↦
      let rest =
        number-digits_from base rounds (n / base) b
          (omega (arith, step-lt base n b (omega arith))) in
      rw (digits_from-step base rounds n (omega arith)) (
        number-append base 0 (digits_from base rounds (n / base)) (digit (n % base) ∷ [])
        ∙ rw rest (rw (step-digit base n b) (step-value base n b)))
]

pub length-append : (xs ys : Bytes) → length (xs ++ ys) ≡ length xs + length ys
length-append [] ys = omega arith
length-append (x ∷ xs) ys = omega (arith, length-append xs ys)

length-digits_from :
    (base rounds n k : ℕ) → IsBase base → n < base ^ k → length (digits_from base rounds n) ≤ k
unfolding digits_from
length-digits_from base zero n k b h = omega arith
length-digits_from base (suc rounds) n zero b h =
    let nothing : n ≡ 0 = omega (arith, step-one base n b) in rw nothing (omega arith)
length-digits_from base (suc rounds) n (suc k) b h = elim (lt_or_le 1 (suc n)) [
  | inr none_left ↦ let nothing : n ≡ 0 = omega arith in rw nothing (omega arith)
  | inl more ↦ rw (digits_from-step base rounds n (omega arith)) (
      omega (
        arith,
        length-append (digits_from base rounds (n / base)) (digit (n % base) ∷ []),
        length-digits_from base rounds (n / base) k b (step-pow base n b k h),
      ))
]

-- Decimal and hexadecimal digits read back as the number.
number-digits : (base n : ℕ) → IsBase base → number base 0 (digits base n) ≡ n
unfolding digits
number-digits base n b = elim (Bool-cases (n == 0)) [
  | inl test ↦ rw test (ground arith)
  | inr test ↦ rw test (number-digits_from base n n b (omega arith))
]

length-digits : (base n k : ℕ) → IsBase base → n < base ^ k → 0 < k → length (digits base n) ≤ k
unfolding digits
length-digits base n k b h pos = elim (Bool-cases (n == 0)) [
  | inl test ↦ rw test (omega arith)
  | inr test ↦ rw test (length-digits_from base n n k b h)
]

number-replicate : (base n : ℕ) → number base 0 (replicate n b'0') ≡ 0
number-replicate base zero = refl
number-replicate base (suc n) =
    let nothing : 0 * base + 0 ≡ 0 = omega arith in
    subst (λ a. number base a (replicate n b'0') ≡ 0) (sym nothing) (number-replicate base n)

length-replicate : (n a : ℕ) → length (replicate n a) ≡ n
length-replicate zero a = refl
length-replicate (suc n) a = ap suc (length-replicate n a)

-- The padding of `{:#010x}`: a u32 takes ten columns, and its last eight read back as the number.
pub hex_padded_lem :
    (n : ℕ)
    → n < 2 ^ 32
    → (tail : Bytes) × (hex_padded 10 n ≡ codes "0x" ++ tail)
      × (length tail ≡ 8)
      × (number 16 0 tail ≡ n)
unfolding hex_padded
hex_padded_lem n h =
    let ds : Bytes = digits 16 n in
    let short = length-digits 16 n 8 (inr refl) (omega arith) (omega arith) in
    let pad : Bytes = replicate (8 - length ds) b'0' in
    (
      pad ++ ds,
      refl,
      omega (arith, length-append pad ds, length-replicate (8 - length ds) b'0'),
      number-append 16 0 pad ds
          ∙ rw (number-replicate 16 (8 - length ds)) (number-digits 16 n (inr refl)),
    )

pub length-hex_padded : (n : ℕ) → n < 2 ^ 32 → length (hex_padded 10 n) ≡ 10
length-hex_padded n h =
    let (tail, e, len, reads) = hex_padded_lem n h in
    rw e (omega (arith, length-append (codes "0x") tail, len))

pub length-decimal : (n : ℕ) → n < 2 ^ 32 → length (decimal n) ≤ 10
unfolding decimal
length-decimal n h = length-digits 10 n 10 (inl refl) (omega arith) (omega arith)
