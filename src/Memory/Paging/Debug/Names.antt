-- ===== src/Memory/Paging/Debug/Names.antt =====
-- The text of a flag set lists the bits that are set in it, and the text of an address tells which it is.
use zkrnl.Base.{
  ℕ, zero, suc, ◌^◌, ◌<◌, ◌≡◌, refl, List, [], ◌∷◌, arith, ◌==◌, if◌then◌else◌, ap, Bool, true,
  false, Bool-cases, inl, inr, length, ◌++◌,
}
use native.Mathlib.Nat.{pow-suc}
use zkrnl.Word.Bit.{bit, bit_and-pow, bit-le-one}
use zkrnl.Text.{Bytes, codes}
use zkrnl.Text.Digits.{number, hex_padded_lem}
use zkrnl.Memory.Paging.Flags.{PageFlags, contains}
use zkrnl.Memory.Paging.Debug.{write_names, flags_debug, phys_debug, virt_debug}

-- The names of the bits of an entry's flag byte and of the global bit, by the places that the processor
-- gives them.
abbrev pub bit_names : List (ℕ × Bytes)
bit_names =
    (0, codes "PRESENT")
    ∷ (1, codes "WRITABLE")
    ∷ (2, codes "USER")
    ∷ (3, codes "WRITE_THROUGH")
    ∷ (4, codes "CACHE_DISABLE")
    ∷ (5, codes "ACCESSED")
    ∷ (6, codes "DIRTY")
    ∷ (8, codes "GLOBAL")
    ∷ []

-- The names of the bits that are set.
abbrev pub names_in : ℕ → List (ℕ × Bytes) → List Bytes
names_in f [] = []
names_in f ((i, name) ∷ rest) = if bit f i == 1 then name ∷ names_in f rest else names_in f rest

abbrev pub after_bars : List Bytes → Bytes
after_bars [] = []
after_bars (name ∷ names) = codes " | " ++ (name ++ after_bars names)

-- Names with a bar between two of them, or the word for none.
abbrev pub listed : List Bytes → Bytes
listed [] = codes "empty"
listed (name ∷ names) = name ++ after_bars names

-- The flags at the given bits.
abbrev flags_at : List (ℕ × Bytes) → List (PageFlags × Bytes)
flags_at [] = []
flags_at ((i, name) ∷ rest) = (2 ^ i, name) ∷ flags_at rest

pow_pos : (i : ℕ) → 0 < 2 ^ i
pow_pos zero = omega arith
pow_pos (suc i) = omega (arith, pow-suc 2 i, pow_pos i)

contains-bit : (f i : ℕ) → contains f (2 ^ i) ≡ (bit f i == 1)
unfolding contains
contains-bit f i = ground (arith, bit_and-pow i f, bit-le-one f i, pow_pos i)

write_names-rest :
    (f : PageFlags) (rest : List (ℕ × Bytes))
    → write_names f (flags_at rest) false ≡ (after_bars (names_in f rest), false)
unfolding write_names
write_names-rest f [] = refl
write_names-rest f ((i, name) ∷ rest) = ground (arith, contains-bit f i, write_names-rest f rest)

-- The text after the loop, with the word for none where no name came before.
abbrev closed : Bytes × Bool → Bytes
closed (text, first) = text ++ ((if first then codes "empty" else []) ++ codes ")")

-- The loop from its start: the word for none is added to an empty text.
write_names-first :
    (f : PageFlags) (rest : List (ℕ × Bytes))
    → closed (write_names f (flags_at rest) true) ≡ listed (names_in f rest) ++ codes ")"
unfolding write_names
write_names-first f [] = refl
write_names-first f ((i, name) ∷ rest) = elim (Bool-cases (bit f i == 1)) [
  | inl on ↦ ground (arith, contains-bit f i, on, write_names-rest f rest)
  | inr off ↦ ground (arith, contains-bit f i, off, write_names-first f rest)
]

-- The `Debug` text of any flag set is, in `PageFlags(...)`, the names of exactly those of the eight named
-- bits that are set in it, lowest first and with a bar between two of them, or `empty` if none is set.
pub flags_debug_lem :
    (f : PageFlags)
    → flags_debug f ≡ codes "PageFlags(" ++ (listed (names_in f bit_names) ++ codes ")")
unfolding flags_debug
flags_debug_lem f = ap (λ t. codes "PageFlags(" ++ t) (write_names-first f bit_names)

-- The text of a 32-bit address is its kind and, in parentheses, ten columns that read back as the address.
phys_debug-number :
    (a : ℕ)
    → a < 2 ^ 32
    → (tail : Bytes) × (phys_debug a ≡ codes "PhysAddr(0x" ++ (tail ++ codes ")"))
      × (virt_debug a ≡ codes "VirtAddr(0x" ++ (tail ++ codes ")"))
      × (length tail ≡ 8)
      × (number 16 0 tail ≡ a)
unfolding phys_debug virt_debug
phys_debug-number a h =
    let (tail, e, width, value) = hex_padded_lem a h in
    (
      tail,
      ap (λ t. codes "PhysAddr(" ++ (t ++ codes ")")) e,
      ap (λ t. codes "VirtAddr(" ++ (t ++ codes ")")) e,
      width,
      value,
    )
