-- ===== src/Memory/Frame/Bitmap/Any.antt =====
-- What `any_free_in` and `is_free` find.
use native.Mathlib.Nat.{pow-suc}
use zkrnl.Base.{
  ℕ, zero, suc, ◌+◌, ◌*◌, ◌/◌, ◌%◌, ◌^◌, ◌≤◌, ◌<◌, bit_and, ◌≡◌, ◌≢◌, refl, List, [], ◌∷◌, ok,
  Result, arith, ltb, ◌==◌, lt_or_le, inl, inr, ap, Bool, true, false, Bool-cases, ==_iff, ◌⊎◌,
}
use zkrnl.Word.Bit.{bit, bit-le-one, bit-bit_and, bit-zero, bit_and-le}
use zkrnl.Utils.Bits.Mask.{range_mask, range_mask-lt, bit-range_mask}
use zkrnl.Memory.Frame.Bitmap.{frame_count, FrameBitmap, any_free_in, any_word}
use zkrnl.Memory.Frame.Bitmap.Covers.{Covers, Covers-le, masks-Covers}
use zkrnl.Memory.Frame.Bitmap.Update.{frame_bit}

-- No frame from `lo` to `hi - 1` is free; one of them is.
abbrev pub NoneFree : (ℕ → ℕ) → ℕ → ℕ → Type 0
NoneFree words lo hi = (f : ℕ) → lo ≤ f → f < hi → frame_bit words f ≡ 0

abbrev pub SomeFree : (ℕ → ℕ) → ℕ → ℕ → Type 0
SomeFree words lo hi = (f : ℕ) × (lo ≤ f) × (f < hi) × (frame_bit words f ≡ 1)

-- A word that is not zero has a bit that is set.
set_bit : (w x : ℕ) → x < 2 ^ w → x ≢ 0 → (i : ℕ) × (bit x i ≡ 1)
unfolding bit
set_bit zero x h ne = absurd (omega arith)
set_bit (suc w) x h ne = elim (lt_or_le (x % 2) 1) [
  | inr odd ↦ (0, omega arith)
  | inl even ↦
      let rest = set_bit w (x / 2) (omega (arith, pow-suc 2 w)) (omega arith) in
      (suc rest.0, rest.1)
]

-- The test of one masked word.
module _ (words : ℕ → ℕ) (lo n : ℕ) (inside : lo % 32 + n ≤ 32) where
  abbrev overlap : ℕ
  overlap = bit_and (words (lo / 32)) (range_mask (lo % 32) (lo % 32 + n))

  overlap-none : overlap ≡ 0 → NoneFree words lo (lo + n)
  overlap-none e f p q = ground (
    arith,
    bit-bit_and (words (lo / 32)) (range_mask (lo % 32) (lo % 32 + n)) (f % 32),
    bit-range_mask (lo % 32) (lo % 32 + n) (f % 32) inside,
    bit-le-one (words (f / 32)) (f % 32),
    ap (λ (t : ℕ). bit t (f % 32)) e,
    bit-zero (f % 32),
  )

  overlap-at : (i : ℕ) → bit overlap i ≡ 1 → SomeFree words lo (lo + n)
  overlap-at i e =
      let facts : (lo % 32 ≤ i) × (i < lo % 32 + n) × (bit (words (lo / 32)) i ≡ 1) = ground (
        arith,
        bit-bit_and (words (lo / 32)) (range_mask (lo % 32) (lo % 32 + n)) i,
        bit-range_mask (lo % 32) (lo % 32 + n) i inside,
        bit-le-one (words (lo / 32)) i,
      ) in
      let word : (lo / 32 * 32 + i) / 32 ≡ lo / 32 = omega arith in
      let position : (lo / 32 * 32 + i) % 32 ≡ i = omega arith in
      (lo / 32 * 32 + i, omega arith, omega arith, rw (word, position) facts.2)

  overlap-lt : overlap < 2 ^ 32
  overlap-lt = omega (
    arith,
    bit_and-le (words (lo / 32)) (range_mask (lo % 32) (lo % 32 + n)),
    range_mask-lt (lo % 32) (lo % 32 + n),
  )

  overlap-some : overlap ≢ 0 → SomeFree words lo (lo + n)
  overlap-some ne = let found = set_bit 32 overlap overlap-lt ne in overlap-at found.0 found.1

NoneFree-join :
    (words : ℕ → ℕ) {lo mid hi : ℕ}
    → NoneFree words lo mid
    → NoneFree words mid hi
    → NoneFree words lo hi
NoneFree-join words {mid} left right f p q = elim (lt_or_le f mid) [
  | inl below ↦ left f p below
  | inr above ↦ right f above q
]

-- A loop over masks returns whether a frame from `lo` to `hi - 1` is free.
abbrev pub AnyFree : (words : ℕ → ℕ) (lo hi : ℕ) → Result Bool → Type 0
AnyFree words lo hi result =
    ((result ≡ ok false) × NoneFree words lo hi) ⊎ ((result ≡ ok true) × SomeFree words lo hi)

any_word-AnyFree :
    (items : List (ℕ × ℕ)) (words : ℕ → ℕ) (lo hi : ℕ)
    → Covers items lo hi
    → hi ≤ frame_count
    → AnyFree words lo hi (any_word items words)
unfolding any_word
any_word-AnyFree [] words lo hi c h = inl (refl, λ f p q. absurd (omega arith))
any_word-AnyFree ((i, mask) ∷ items) words lo hi (n, some_bits, inside, at, is_mask, c) h =
    let rest = any_word-AnyFree items words (lo + n) hi c h in
    let in_bounds : ltb i 32768 ≡ true = ground (arith, Covers-le items c) in
    let same : bit_and (words i) mask ≡ overlap words lo n inside = rw (at, is_mask) in
    elim (Bool-cases (overlap words lo n inside == 0)) [
      | inl clear ↦
          rw (in_bounds, same, clear)
            (elim rest [
              | inl (e, none_free) ↦ inl (
                e,
                NoneFree-join words (overlap-none words lo n inside ((==_iff _ 0).0 clear))
                    none_free,
              )
              | inr (e, (f, p, q, free)) ↦ inr (e, (f, omega arith, q, free))
            ])
      | inr hit ↦
          rw (in_bounds, same, hit)
            (let (f, p, q, free) = overlap-some words lo n inside (λ e. ground arith) in
              inr (refl, (f, p, omega (arith, Covers-le items c), free)))
    ]

-- On a range inside the bitmap `any_free_in` does not panic, and tells whether one of its frames is free.
pub any_free_in-AnyFree :
    (b : FrameBitmap) (start len : ℕ)
    → start + len ≤ frame_count
    → AnyFree b.bitmap start (start + len) (any_free_in b start len)
unfolding any_free_in
any_free_in-AnyFree b start len h =
    let items = masks-Covers start len in
    rw items.1 (any_word-AnyFree items.0 b.bitmap start (start + len) items.2 h)
