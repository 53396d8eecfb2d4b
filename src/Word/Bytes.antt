-- ===== src/Word/Bytes.antt =====
-- Little-endian bytes: how src/gdt.rs stores a descriptor, and how a loader lays a memory map out.
use zkrnl.Base.{ℕ, zero, suc, ◌+◌, ◌*◌, ◌/◌, ◌%◌, ◌≤◌, ◌<◌, ◌≡◌, refl, List, [], ◌∷◌, arith}

-- The `n` little-endian bytes of a number.
unfoldable pub le_bytes : ℕ → ℕ → List ℕ
le_bytes zero v = []
le_bytes (suc n) v = (v % 256) ∷ le_bytes n (v / 256)

-- The number in the `n` bytes of memory from `addr` on.
unfoldable pub read_le : (ℕ → ℕ) → ℕ → ℕ → ℕ
read_le memory addr zero = 0
read_le memory addr (suc n) = memory addr + 256 * read_le memory (addr + 1) n

-- It is read from those bytes alone.
pub read_le-same :
    (memory memory' : ℕ → ℕ) (n addr : ℕ)
    → ((a : ℕ) → addr ≤ a → a < addr + n → memory a ≡ memory' a)
    → read_le memory addr n ≡ read_le memory' addr n
unfolding read_le
read_le-same memory memory' zero addr same = refl
read_le-same memory memory' (suc n) addr same = omega (
  arith,
  same addr (omega arith) (omega arith),
  read_le-same memory memory' n (addr + 1) (λ a p q. same a (omega arith) (omega arith)),
)
