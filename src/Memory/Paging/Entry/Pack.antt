-- ===== src/Memory/Paging/Entry/Pack.antt =====
-- Entries read back what was packed into them.
use zkrnl.Base.{
  ℕ, ◌+◌, ◌*◌, ◌/◌, ◌%◌, ◌^◌, ◌<◌, bit_and, bit_or, ◌≡◌, ◌≢◌, ◌↔◌, refl, ok, panic, assertion,
  arith, ◌==◌, inl, inr, ap, ◌∙◌, true, ==_iff, ◌⊎◌,
}
use zkrnl.Word.Bit.{
  bit_and-mask, bit_and-high, bit_or-fields, bit_and-pow, bit, bit_or-lt, bit_or_assoc, bit-bit_or,
  bit-le-one,
}
use native.Mathlib.Decide.{ℕ_discrete}
use mathlib.Core.Path.{subst}
use zkrnl.Memory.Address.{frame_floor, base_addr}
use zkrnl.Memory.Paging.Flags.{PageFlags, from_bits, contains, union, present, page_table_span}
use zkrnl.Memory.Paging.Entry.{
  new, for_table, flags, frame, table_frame, is_present, for_huge_page, is_huge,
}

-- The fields of a u32 entry, by arithmetic.
pub fields_as_arith :
    (e : ℕ)
    → e < 2 ^ 32
    → (flags e ≡ e % 2 ^ 12)
      × (frame e ≡ e / 2 ^ 12)
      × (table_frame e ≡ e / 2 ^ 12)
      × (is_present e ≡ (e % 2 == 1))
unfolding flags frame table_frame is_present frame_floor from_bits contains
fields_as_arith e h =
    let high : bit_and e 0xFFFF_F000 / 4096 ≡ e / 2 ^ 12 = omega (arith, bit_and-high e h) in
    (
      bit_and-mask 12 e,
      high,
      high,
      ground (arith, bit_and-mask 12 e, bit_and-mask 1 (bit_and e 0xFFF)),
    )

pub new-eq : (n : ℕ) (f : PageFlags) → n < 2 ^ 20 → f < 2 ^ 12 → new n f ≡ ok (n * 2 ^ 12 + f)
unfolding new base_addr
new-eq n f p q = ground (arith, bit_or-fields 12 n f)

pub for_table-eq :
    (n : ℕ) (f : PageFlags) → n < 2 ^ 20 → f < 2 ^ 12 → for_table n f ≡ ok (n * 2 ^ 12 + f)
unfolding for_table base_addr
for_table-eq n f p q = ground (arith, bit_or-fields 12 n f)

-- A frame below the 4 GiB limit and twelve bits of flags go into an entry and come back out of it, and
-- every u32 is the entry of its own frame and flags. The entry is present exactly if its flags hold the
-- present bit.
new-fields :
    (n : ℕ) (f : PageFlags) (e : ℕ)
    → n < 2 ^ 20
    → f < 2 ^ 12
    → e < 2 ^ 32
    → ((new n f ≡ ok e) ↔ ((frame e ≡ n) × (flags e ≡ f)))
      × (is_present e ≡ contains (flags e) present)
unfolding is_present
new-fields n f e p q r = (
  (
    λ h.
        let same : n * 2 ^ 12 + f ≡ e = ground (arith, new-eq n f p q) in
        omega (arith, fields_as_arith e r),
    λ h. new-eq n f p q ∙ ap (λ (t : ℕ). ok t) (omega (arith, fields_as_arith e r)),
  ),
  refl,
)

is_huge-eq : (e : ℕ) → is_huge e ≡ (e / 2 ^ 7 % 2 == 1)
unfolding is_huge bit
is_huge-eq e = ground (arith, bit_and-pow 7 e)

-- The low bits of a huge entry.
module _ (f : PageFlags) (q : f < 2 ^ 12) where
  low-lt : bit_or (2 ^ 7) f < 2 ^ 12
  low-lt = bit_or-lt 12 (2 ^ 7) f (omega arith) q

  low-is_huge : bit_or (2 ^ 7) f / 2 ^ 7 % 2 ≡ 1
  unfolding bit
  low-is_huge =
      omega (arith, bit-bit_or (2 ^ 7) f 7, bit-le-one f 7, bit-le-one (bit_or (2 ^ 7) f) 7)

  for_huge_page-eq :
      (base : ℕ)
      → base < 2 ^ 32
      → base % page_table_span ≡ 0
      → for_huge_page base f ≡ ok (base + bit_or (2 ^ 7) f)
  unfolding for_huge_page
  for_huge_page-eq base p aligned =
      let whole : base / 2 ^ 22 * 2 ^ 22 ≡ base = omega arith in
      let sum : bit_or base (bit_or (2 ^ 7) f) ≡ base + bit_or (2 ^ 7) f =
        subst (λ (t : ℕ). bit_or t (bit_or (2 ^ 7) f) ≡ t + bit_or (2 ^ 7) f) whole
          (bit_or-fields 22 (base / 2 ^ 22) (bit_or (2 ^ 7) f) (omega (arith, low-lt))) in
      let regroup = bit_or_assoc base (2 ^ 7) f p (omega arith) (omega arith) in
      ground (arith, regroup, sum)

-- An aligned 4 MiB page keeps its base in the high ten bits, its flags with the page-size bit in the low
-- twelve, and reads as huge; a base that is not aligned fails the assertion.
for_huge_page_lem :
    (base : ℕ) (f : PageFlags)
    → base < 2 ^ 32
    → f < 2 ^ 12
    → ((base % page_table_span ≡ 0)
        × ((e : ℕ) × (for_huge_page base f ≡ ok e)
            × (e < 2 ^ 32)
            × (e / 2 ^ 22 * 2 ^ 22 ≡ base)
            × (flags e ≡ union (2 ^ 7) f)
            × (is_huge e ≡ true)
            × (is_present e ≡ contains (union (2 ^ 7) f) present)))
      ⊎ ((base % page_table_span ≢ 0) × (for_huge_page base f ≡ panic assertion))
unfolding for_huge_page union is_present
for_huge_page_lem base f p q = elim (ℕ_discrete (base % page_table_span) 0) [
  | no ragged ↦ inr (ragged, ground arith)
  | yes aligned ↦
      let x : ℕ = bit_or (2 ^ 7) f in
      let e : ℕ = base + x in
      let bound : e < 2 ^ 32 = omega (arith, low-lt f q) in
      let low : flags e ≡ x = (fields_as_arith e bound).0 ∙ omega (arith, low-lt f q) in
      inl (
        aligned,
        (
          e,
          for_huge_page-eq f q base p aligned,
          bound,
          omega (arith, low-lt f q),
          low,
          is_huge-eq e ∙ (==_iff _ 1).1 (omega (arith, low-is_huge f q)),
          ap (λ (t : ℕ). contains t present) low,
        ),
      )
]
