-- ===== src/Word/Step.antt =====
-- One equation for the lowest binary digit of `&` and `|`.
use Prim.Native.Nat.{digits, bitwise, bit_and-bitwise, bit_or-bitwise}
use zkrnl.Base.{
  ℕ, zero, suc, ◌+◌, ◌*◌, ◌/◌, ◌%◌, ◌≤◌, min, max, bit_and, bit_or, ◌≡◌, refl, arith, sym, ◌∙◌,
}

-- The native operations stand for a recursion on binary digits, on as much fuel as the number.
module _ (z : ℕ → ℕ) (f : ℕ → ℕ → ℕ) where
  digits-zero : (k y : ℕ) → digits z f k zero y ≡ digits z f zero zero y
  digits-zero zero y = refl
  digits-zero (suc k) y = refl

  digits_enough : (k l x y : ℕ) → x ≤ k → x ≤ l → digits z f k x y ≡ digits z f l x y
  digits_enough k l zero y fits fits' = digits-zero k y ∙ sym (digits-zero l y)
  digits_enough zero l (suc x) y fits fits' = absurd (omega arith)
  digits_enough (suc k) zero (suc x) y fits fits' = absurd (omega arith)
  digits_enough (suc k) (suc l) (suc x) y fits fits' =
      let halved = digits_enough k l (suc x / 2) (y / 2) (omega arith) (omega arith) in rw halved

  bitwise-digit :
      (x y : ℕ)
      → bitwise z f (suc x) y ≡ bitwise z f (suc x / 2) (y / 2) * 2 + f (suc x % 2) (y % 2)
  bitwise-digit x y =
      let enough = digits_enough x (suc x / 2) (suc x / 2) (y / 2) (omega arith) (omega arith) in
      omega arith

pub bit_and-digit : (a b : ℕ) → bit_and a b ≡ bit_and (a / 2) (b / 2) * 2 + min (a % 2) (b % 2)
bit_and-digit zero b = simp bit_and-bitwise (omega arith)
bit_and-digit (suc a) b = simp bit_and-bitwise (bitwise-digit (λ y. 0) min a b)

pub bit_or-digit : (a b : ℕ) → bit_or a b ≡ bit_or (a / 2) (b / 2) * 2 + max (a % 2) (b % 2)
bit_or-digit zero b = simp bit_or-bitwise (omega arith)
bit_or-digit (suc a) b = simp bit_or-bitwise (bitwise-digit (λ y. y) max a b)
