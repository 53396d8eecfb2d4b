-- ===== src/Memory/Paging/Flags/Laws.antt =====
-- src/memory/paging.rs: flag sets as sets of bits.
use zkrnl.Base.{ℕ, ◌^◌, ◌≤◌, ◌<◌, max, bit_and, ◌≡◌, ◌↔◌, arith, ap, true, ==_iff}
use zkrnl.Word.Bit.{bit, bit-zero, bit_ext, bit-bit_and, bit-bit_or, bit_or-lt, bit_and-le}
use zkrnl.Memory.Paging.Flags.{PageFlags, empty, bits, bitor, union, contains}

module _ (a b : PageFlags) (p : a < 2 ^ 12) (q : b < 2 ^ 12) where
  contains-bits : (contains a b ≡ true) ↔ ((i : ℕ) → bit b i ≤ bit a i)
  unfolding contains
  contains-bits = (
    λ e i. omega (arith, bit-bit_and a b i, ap (λ (t : ℕ). bit t i) ((==_iff (bit_and a b) b).0 e)),
    λ h. (==_iff (bit_and a b) b).1 (
        bit_ext 12 (bit_and a b) b (omega (arith, bit_and-le a b)) q
          (λ i l. omega (arith, bit-bit_and a b i, h i))),
  )

  union-lt : union a b < 2 ^ 12
  unfolding union
  union-lt = bit_or-lt 12 a b p q

bit-union : (a b i : ℕ) → bit (union a b) i ≡ max (bit a i) (bit b i)
unfolding union
bit-union a b i = bit-bit_or a b i

-- For flag sets of twelve bits, `contains` is inclusion of the sets of bits, and `union` is the least
-- flag set of twelve bits that contains both.
contains_lem :
    (a b c : PageFlags)
    → a < 2 ^ 12
    → b < 2 ^ 12
    → c < 2 ^ 12
    → ((contains a b ≡ true) ↔ ((i : ℕ) → bit b i ≤ bit a i))
      × (contains (union a b) a ≡ true)
      × (contains (union a b) b ≡ true)
      × (contains c a ≡ true → contains c b ≡ true → contains c (union a b) ≡ true)
      × (union a b < 2 ^ 12)
contains_lem a b c p q r =
    let u = union-lt a b p q in
    (
      contains-bits a b p q,
      (contains-bits (union a b) a u p).1 (λ i. omega (arith, bit-union a b i)),
      (contains-bits (union a b) b u q).1 (λ i. omega (arith, bit-union a b i)),
      λ e e'. (contains-bits c (union a b) r u).1 λ i.
          omega
            (arith, bit-union a b i, (contains-bits c a r p).0 e i, (contains-bits c b r q).0 e' i),
      u,
    )

-- The raw bits of a joined set are those of both, so flag sets of twelve bits are a commutative and
-- idempotent monoid under `|` with the empty set.
bitor_monoid :
    (a b c : PageFlags)
    → a < 2 ^ 12
    → b < 2 ^ 12
    → c < 2 ^ 12
    → ((i : ℕ) → bit (bits (bitor a b)) i ≡ max (bit (bits a) i) (bit (bits b) i))
      × (bitor a empty ≡ a)
      × (bitor a a ≡ a)
      × (bitor a b ≡ bitor b a)
      × (bitor (bitor a b) c ≡ bitor a (bitor b c))
unfolding bitor
bitor_monoid a b c p q r =
    let ab = union-lt a b p q in
    let bc = union-lt b c q r in
    (
      bit-union a b,
      bit_ext 12 _ a (union-lt a 0 p (omega arith)) p
          (λ i l. omega (arith, bit-union a 0 i, bit-zero i)),
      bit_ext 12 _ a (union-lt a a p p) p (λ i l. omega (arith, bit-union a a i)),
      bit_ext 12 _ _ ab (union-lt b a q p) (λ i l. omega (arith, bit-union a b i, bit-union b a i)),
      bit_ext 12 _ _ (union-lt (union a b) c ab r) (union-lt a (union b c) p bc) (λ i l. omega (
        arith,
        bit-union (union a b) c i,
        bit-union a b i,
        bit-union a (union b c) i,
        bit-union b c i,
      )),
    )
