-- ===== src/Word/Bit.antt =====
-- The bits of a number, and what the word operations do to each of them.
use native.Mathlib.Nat.{pow-suc, pow-succ', one-le-pow, div-add-mod, div-div-eq-div-mul}
use Prim.Native.Nat.{bit_and-bitwise}
use zkrnl.Base.{
  ℕ, zero, suc, ◌+◌, ◌-◌, ◌*◌, ◌/◌, ◌%◌, ◌^◌, ◌≤◌, ◌<◌, min, max, bit_and, bit_or, ◌≡◌, refl, arith,
  ltb, if◌then◌else◌, ap, sym,
}
use zkrnl.Word.Step.{bit_and-digit, bit_or-digit}

-- Bit `i` of `a`, counted from the least significant.
unfoldable pub bit : ℕ → ℕ → ℕ
bit a zero = a % 2
bit a (suc i) = bit (a / 2) i

pub bit-le-one : (a i : ℕ) → bit a i ≤ 1
unfolding bit
bit-le-one a zero = omega arith
bit-le-one a (suc i) = bit-le-one (a / 2) i

pub bit-zero : (i : ℕ) → bit 0 i ≡ 0
unfolding bit
bit-zero zero = refl
bit-zero (suc i) = bit-zero i

pub bit-bit_and : (a b i : ℕ) → bit (bit_and a b) i ≡ min (bit a i) (bit b i)
unfolding bit
bit-bit_and a b zero = omega (arith, bit_and-digit a b)
bit-bit_and a b (suc i) =
    let half : bit_and a b / 2 ≡ bit_and (a / 2) (b / 2) = omega (arith, bit_and-digit a b) in
    rw half (bit-bit_and (a / 2) (b / 2) i)

pub bit-bit_or : (a b i : ℕ) → bit (bit_or a b) i ≡ max (bit a i) (bit b i)
unfolding bit
bit-bit_or a b zero = omega (arith, bit_or-digit a b)
bit-bit_or a b (suc i) =
    let half : bit_or a b / 2 ≡ bit_or (a / 2) (b / 2) = omega (arith, bit_or-digit a b) in
    rw half (bit-bit_or (a / 2) (b / 2) i)

-- A word is determined by its bits below its width.
pub bit_ext : (w a b : ℕ) → a < 2 ^ w → b < 2 ^ w → ((i : ℕ) → i < w → bit a i ≡ bit b i) → a ≡ b
unfolding bit
bit_ext zero a b p q h = omega arith
bit_ext (suc w) a b p q h = omega (
  arith,
  h 0 (omega arith),
  bit_ext w (a / 2) (b / 2) (omega (arith, pow-suc 2 w)) (omega (arith, pow-suc 2 w))
      (λ i l. h (suc i) (omega arith)),
)

-- `2 ^ w - 1 - a` flips the low `w` bits.
pub bit-complement : (w a i : ℕ) → a < 2 ^ w → i < w → bit (2 ^ w - 1 - a) i ≡ 1 - bit a i
unfolding bit
bit-complement zero a i p l = absurd (omega arith)
bit-complement (suc w) a zero p l = omega (arith, pow-suc 2 w)
bit-complement (suc w) a (suc i) p l =
    let half : (2 ^ suc w - 1 - a) / 2 ≡ 2 ^ w - 1 - a / 2 = omega (arith, pow-suc 2 w) in
    rw half (bit-complement w (a / 2) i (omega (arith, pow-suc 2 w)) (omega arith))

pub bit-ones : (w i : ℕ) → bit (2 ^ w - 1) i ≡ (if ltb i w then 1 else 0)
unfolding bit
bit-ones zero i = ground (arith, bit-zero i)
bit-ones (suc w) zero = ground (arith, pow-suc 2 w, one-le-pow w 2)
bit-ones (suc w) (suc i) =
    let half : (2 ^ suc w - 1) / 2 ≡ 2 ^ w - 1 = omega (arith, pow-suc 2 w) in
    rw half (ground (arith, bit-ones w i))

pub bit-mul-pow : (k a i : ℕ) → bit (a * 2 ^ k) i ≡ (if ltb i k then 0 else bit a (i - k))
unfolding bit
bit-mul-pow zero a i =
    let one : a * 2 ^ 0 ≡ a = omega arith in
    let same : i - 0 ≡ i = omega arith in rw (one, same) (ground arith)
bit-mul-pow (suc k) a zero = ground (arith, ap (λ (t : ℕ). a * t) (pow-suc 2 k))
bit-mul-pow (suc k) a (suc i) =
    let half : a * 2 ^ suc k / 2 ≡ a * 2 ^ k = omega (arith, ap (λ (t : ℕ). a * t) (pow-suc 2 k)) in
    let same : suc i - suc k ≡ i - k = omega arith in
    rw (half, same) (ground (arith, bit-mul-pow k a i))

-- `a % 2 ^ (w + 1)` is `a / 2 % 2 ^ w` with the lowest bit of `a` below it.
mod-pow-suc : (w a : ℕ) → a % 2 ^ suc w ≡ 2 * (a / 2 % 2 ^ w) + a % 2
mod-pow-suc w a =
    let quotient : a / 2 ^ suc w ≡ a / 2 / 2 ^ w =
      rw pow-succ' (sym (div-div-eq-div-mul a 2 (2 ^ w))) in
    let product : 2 ^ suc w * (a / 2 ^ suc w) ≡ 2 * (2 ^ w * (a / 2 / 2 ^ w)) =
      rw (quotient, pow-succ') (omega arith) in
    omega (arith, product, div-add-mod a (2 ^ suc w), div-add-mod (a / 2) (2 ^ w))

pub bit-mod-pow : (w a i : ℕ) → bit (a % 2 ^ w) i ≡ (if ltb i w then bit a i else 0)
unfolding bit
bit-mod-pow zero a i =
    let none_left : a % 2 ^ 0 ≡ 0 = omega arith in rw none_left (ground (arith, bit-zero i))
bit-mod-pow (suc w) a zero = ground (arith, mod-pow-suc w a)
bit-mod-pow (suc w) a (suc i) =
    let half : a % 2 ^ suc w / 2 ≡ a / 2 % 2 ^ w = omega (arith, mod-pow-suc w a) in
    rw half (ground (arith, bit-mod-pow w (a / 2) i))

pub bit-div-pow : (k a i : ℕ) → bit (a / 2 ^ k) i ≡ bit a (i + k)
unfolding bit
bit-div-pow zero a i =
    let one : a / 2 ^ 0 ≡ a = omega arith in let same : i + 0 ≡ i = omega arith in rw (one, same)
bit-div-pow (suc k) a i =
    let quotient : a / 2 ^ suc k ≡ a / 2 / 2 ^ k =
      rw pow-succ' (sym (div-div-eq-div-mul a 2 (2 ^ k))) in
    let index : i + suc k ≡ suc (i + k) = omega arith in
    rw (quotient, index) (bit-div-pow k (a / 2) i)

-- By halving, as often as `rounds` allows.
no_common_bit : (rounds x : ℕ) → x < suc rounds → bit_and x zero ≡ zero
no_common_bit rounds zero small = refl
no_common_bit zero (suc x) small = absurd (omega arith)
no_common_bit (suc rounds) (suc x) small =
    let halved = no_common_bit rounds (suc x / 2) (omega arith) in
    omega (arith, bit_and-digit (suc x) zero)

bit_and-zero : (x : ℕ) → bit_and x 0 ≡ 0
bit_and-zero x = no_common_bit x x (omega arith)

-- `a & (1 << k)` keeps bit `k` in its place.
pub bit_and-pow : (k a : ℕ) → bit_and a (2 ^ k) ≡ bit a k * 2 ^ k
unfolding bit
bit_and-pow zero a = omega (arith, bit_and-digit a 1, bit_and-zero (a / 2))
bit_and-pow (suc k) a = omega (
  arith,
  bit_and-digit a (2 ^ suc k),
  pow-suc 2 k,
  ap (λ (t : ℕ). bit_and (a / 2) t) halved,
  bit_and-pow k (a / 2),
  ap (λ (t : ℕ). bit (a / 2) k * t) (pow-suc 2 k),
)
  where
    halved : 2 ^ suc k / 2 ≡ 2 ^ k
    halved = omega (arith, pow-suc 2 k)

bit_and-le_fuel : (n a b : ℕ) → a ≤ n → bit_and a b ≤ b
bit_and-le_fuel n zero b h = omega (arith, bit_and-bitwise 0 b)
bit_and-le_fuel zero (suc a) b h = absurd (omega arith)
bit_and-le_fuel (suc n) (suc a) b h =
    omega (arith, bit_and-digit (suc a) b, bit_and-le_fuel n (suc a / 2) (b / 2) (omega arith))

pub bit_and-le : (a b : ℕ) → bit_and a b ≤ b
bit_and-le a b = bit_and-le_fuel a a b (omega arith)

pub bit_or-lt : (w a b : ℕ) → a < 2 ^ w → b < 2 ^ w → bit_or a b < 2 ^ w
bit_or-lt zero a b p q =
    let a_zero : a ≡ 0 = omega arith in
    let b_zero : b ≡ 0 = omega arith in
    let none_set : bit_or 0 0 < 2 ^ 0 = omega arith in rw (a_zero, b_zero) none_set
bit_or-lt (suc w) a b p q = omega (
  arith,
  pow-suc 2 w,
  bit_or-digit a b,
  bit_or-lt w (a / 2) (b / 2) (omega (arith, pow-suc 2 w)) (omega (arith, pow-suc 2 w)),
)

-- `x & (2 ^ k - 1)` is the remainder by `2 ^ k`.
pub bit_and-mask : (k a : ℕ) → bit_and a (2 ^ k - 1) ≡ a % 2 ^ k
bit_and-mask zero a = omega (arith, bit_and-zero a)
bit_and-mask (suc k) a =
    let half : (2 ^ suc k - 1) / 2 ≡ 2 ^ k - 1 = omega (arith, pow-suc 2 k) in
    omega (
      arith,
      bit_and-digit a (2 ^ suc k - 1),
      ap (λ (t : ℕ). bit_and (a / 2) t) half,
      bit_and-mask k (a / 2),
      mod-pow-suc k a,
      pow-suc 2 k,
      one-le-pow k 2,
    )

bit_or-zero_fuel : (n a : ℕ) → a ≤ n → bit_or a 0 ≡ a
bit_or-zero_fuel n zero h = refl
bit_or-zero_fuel zero (suc a) h = absurd (omega arith)
bit_or-zero_fuel (suc n) (suc a) h =
    omega (arith, bit_or-digit (suc a) 0, bit_or-zero_fuel n (suc a / 2) (omega arith))

-- `|` of a multiple of `2 ^ k` and a number below it is their sum.
pub bit_or-fields : (k q r : ℕ) → r < 2 ^ k → bit_or (q * 2 ^ k) r ≡ q * 2 ^ k + r
bit_or-fields zero q r h =
    let no_bits : r ≡ 0 = omega arith in
    rw no_bits (omega (arith, bit_or-zero_fuel (q * 1) (q * 1) (omega arith)))
bit_or-fields (suc k) q r h = ground (
  arith,
  bit_or-digit (q * 2 ^ suc k) r,
  ap (λ (t : ℕ). q * t) (pow-suc 2 k),
  pow-suc 2 k,
  bit_or-fields k q (r / 2) (omega (arith, pow-suc 2 k)),
)

-- `x & !(2 ^ 12 - 1)` on a u32 clears the low twelve bits.
pub bit_and-high : (a : ℕ) → a < 2 ^ 32 → bit_and a 0xFFFF_F000 ≡ a / 2 ^ 12 * 2 ^ 12
bit_and-high a h =
    bit_ext 32 (bit_and a 0xFFFF_F000) (a / 2 ^ 12 * 2 ^ 12)
      (omega (arith, bit_and-le a 0xFFFF_F000)) (omega arith)
      λ i p. ground (
        arith,
        bit-bit_and a 0xFFFF_F000 i,
        bit-mul-pow 12 0xF_FFFF i,
        bit-ones 20 (i - 12),
        bit-mul-pow 12 (a / 2 ^ 12) i,
        bit-div-pow 12 a (i - 12),
        bit-le-one a i,
      )

pub bit_or_assoc :
    (a b c : ℕ)
    → a < 2 ^ 32
    → b < 2 ^ 32
    → c < 2 ^ 32
    → bit_or (bit_or a b) c ≡ bit_or a (bit_or b c)
bit_or_assoc a b c p q r =
    bit_ext 32 (bit_or (bit_or a b) c) (bit_or a (bit_or b c))
      (bit_or-lt 32 (bit_or a b) c (bit_or-lt 32 a b p q) r)
      (bit_or-lt 32 a (bit_or b c) p (bit_or-lt 32 b c q r))
      λ i l. omega (
        arith,
        bit-bit_or (bit_or a b) c i,
        bit-bit_or a b i,
        bit-bit_or a (bit_or b c) i,
        bit-bit_or b c i,
      )
