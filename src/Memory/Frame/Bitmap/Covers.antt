-- ===== src/Memory/Frame/Bitmap/Covers.antt =====
-- The masks that `word_masks` yields for a range of frames.
use zkrnl.Base.{
  ℕ, zero, suc, ◌+◌, ◌-◌, ◌*◌, ◌/◌, ◌%◌, ◌≤◌, ◌<◌, min, ◌≡◌, List, [], ◌∷◌, ok, arith, lt_or_le,
  inl, inr, ap, sym,
}
use zkrnl.Utils.Bits.Mask.{range_mask, clipped_bit_range_mask-eq}
use zkrnl.Memory.Frame.Bitmap.{next_mask, collect_masks, masks}

-- The items are masks of neighbouring words, in order, that cover the frames `lo` to `hi - 1`, each
-- of them once and no other frame; no mask is empty.
abbrev pub Covers : List (ℕ × ℕ) → ℕ → ℕ → Type 0
Covers [] lo hi = lo ≡ hi
Covers ((i, mask) ∷ items) lo hi =
    (n : ℕ) × (0 < n)
    × (lo % 32 + n ≤ 32)
    × (i ≡ lo / 32)
    × (mask ≡ range_mask (lo % 32) (lo % 32 + n))
    × Covers items (lo + n) hi

pub Covers-le : (items : List (ℕ × ℕ)) {lo hi : ℕ} → Covers items lo hi → lo ≤ hi
Covers-le [] c = omega arith
Covers-le ((i, mask) ∷ items) c = omega (arith, Covers-le items c.5)

-- The iterator at bit `a` of word `i` with `r` frames left, which begin at frame `lo`.
collect_masks-Covers :
    (fuel i a r lo : ℕ)
    → r < fuel
    → a < 32
    → (0 < r → lo ≡ i * 32 + a)
    → (items : List (ℕ × ℕ)) × (collect_masks fuel (record { word_i = i; bit = a; remaining = r })
        ≡ ok items)
      × Covers items lo (lo + r)
unfolding collect_masks next_mask
collect_masks-Covers zero i a r lo enough inside starts = absurd (omega arith)
collect_masks-Covers (suc fuel) i a r lo enough inside starts = elim (lt_or_le 0 r) [
  | inr finished ↦ ([], ground arith, omega arith)
  | inl more ↦
      let taken : ℕ = min r (32 - a) in
      let rest =
        collect_masks-Covers fuel (i + 1) 0 (r - taken) (lo + taken) (omega arith) (omega arith)
          (λ left. omega (arith, starts more)) in
      let position : lo % 32 ≡ a = omega (arith, starts more) in
      let whole : lo + taken + (r - taken) ≡ lo + r = omega arith in
      (
        (i, range_mask a (a + taken)) ∷ rest.0,
        ground (arith, clipped_bit_range_mask-eq a r inside more, rest.1),
        (
          taken,
          omega arith,
          omega (arith, starts more),
          omega (arith, starts more),
          ap (λ p. range_mask p (p + taken)) (sym position),
          rw (← whole) rest.2,
        ),
      )
]

-- The iterator over `len` frames from `start` ends, and its masks cover exactly those frames.
pub masks-Covers :
    (start len : ℕ)
    → (items : List (ℕ × ℕ)) × (masks start len ≡ ok items) × Covers items start (start + len)
unfolding masks
masks-Covers start len =
    collect_masks-Covers (suc len) (start / 32) (start % 32) len start (omega arith) (omega arith)
      (λ _. omega arith)
