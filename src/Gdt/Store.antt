-- ===== src/Gdt/Store.antt =====
-- The table in memory: what `write_gdt` stores reads back entry by entry, and the rest stays.
use zkrnl.Base.{
  ℕ, zero, suc, ◌+◌, ◌*◌, ◌/◌, ◌%◌, ◌^◌, ◌≤◌, ◌<◌, ◌≡◌, refl, ap, ◌∙◌, List, [], ◌∷◌, ◌++◌, arith,
  All, Option, none, some, ◌⊎◌, length, update,
}
use native.Mathlib.Nat.{pow-suc}
use zkrnl.Word.Bytes.{le_bytes, read_le, read_le-same}
use zkrnl.Gdt.{store, table_bytes}

pub store-outside :
    (memory : ℕ → ℕ) (addr : ℕ) (bytes : List ℕ) (a : ℕ)
    → (a < addr) ⊎ (addr + length bytes ≤ a)
    → store memory addr bytes a ≡ memory a
unfolding store
store-outside memory addr [] a out = refl
store-outside memory addr (b ∷ bs) a out =
    ground (arith, store-outside memory (addr + 1) bs a (ground arith))

-- Above the first bytes stands what follows them.
store-above :
    (memory : ℕ → ℕ) (bytes rest : List ℕ) (addr base a : ℕ)
    → base ≡ addr + length bytes
    → base ≤ a
    → store memory addr (bytes ++ rest) a ≡ store memory base rest a
unfolding store
store-above memory [] rest addr base a e above = ap (λ k. store memory k rest a) (omega arith)
store-above memory (b ∷ bs) rest addr base a e above =
    ground (arith, store-above memory bs rest (addr + 1) base a (omega arith) above)

read_le-store :
    (memory : ℕ → ℕ) (n v addr : ℕ) (rest : List ℕ)
    → v < 256 ^ n
    → read_le (store memory addr (le_bytes n v ++ rest)) addr n ≡ v
unfolding read_le store le_bytes
read_le-store memory zero v addr rest h = omega arith
read_le-store memory (suc n) v addr rest h =
    let tail : List ℕ = le_bytes n (v / 256) ++ rest in
    let low : update (store memory (addr + 1) tail) addr (v % 256) addr ≡ v % 256 = ground arith in
    let high =
      read_le-same (update (store memory (addr + 1) tail) addr (v % 256))
        (store memory (addr + 1) tail) n (addr + 1) (λ a p q. ground arith) in
    omega (
      arith,
      low,
      high,
      pow-suc 256 n,
      read_le-store memory n (v / 256) (addr + 1) rest (omega (arith, pow-suc 256 n)),
    )

-- The entry at a place of the table.
abbrev pub entry_at : List ℕ → ℕ → Option ℕ
entry_at [] i = none
entry_at (raw ∷ table) zero = some raw
entry_at (raw ∷ table) (suc i) = entry_at table i

-- Each entry of a stored table reads back at its place, eight bytes to an entry.
pub entry_at-store :
    (memory : ℕ → ℕ) (table : List ℕ) (addr i raw : ℕ)
    → All (λ d. d < 2 ^ 64) table
    → entry_at table i ≡ some raw
    → read_le (store memory addr (table_bytes table)) (addr + 8 * i) 8 ≡ raw
unfolding table_bytes le_bytes
entry_at-store memory [] addr i raw small e = absurd (ground arith)
entry_at-store memory (d ∷ table) addr zero raw small e =
    ap (λ k. read_le (store memory addr (le_bytes 8 d ++ table_bytes table)) k 8) (omega arith)
    ∙ read_le-store memory 8 d addr (table_bytes table) (omega (arith, small.0))
    ∙ ground arith
entry_at-store memory (d ∷ table) addr (suc i) raw small e =
    read_le-same (store memory addr (le_bytes 8 d ++ table_bytes table))
      (store memory (addr + 8) (table_bytes table)) 8 (addr + 8 * suc i)
      (λ a p q.
        store-above memory (le_bytes 8 d) (table_bytes table) addr (addr + 8) a refl (omega arith))
    ∙ ap (λ k. read_le (store memory (addr + 8) (table_bytes table)) k 8) (omega arith)
    ∙ entry_at-store memory table (addr + 8) i raw small.1 e
