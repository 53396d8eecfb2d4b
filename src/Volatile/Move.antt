-- ===== src/Volatile/Move.antt =====
-- What `copy` does to the memory, whichever way the two regions overlap.
use zkrnl.Base.{
  ℕ, zero, suc, ◌+◌, ◌-◌, ◌^◌, ◌≤◌, ◌<◌, ◌≡◌, ok, arith, if◌then◌else◌, update, lt_or_le, inl, inr,
  ◌∙◌, ◌⊎◌, lt→ltb, le→ltb_false,
}
use zkrnl.Utils.Bits.Mask.{within}
use zkrnl.Volatile.{copy, copy_forward, copy_backward}

copy_forward_lem :
    (src dst left i a : ℕ) (memory : ℕ → ℕ)
    → (dst ≤ src) ⊎ (src + (i + left) ≤ dst)
    → copy_forward src dst left i memory a
      ≡ (if within (dst + i) (dst + (i + left)) a then memory (src + (a - dst)) else memory a)
unfolding copy_forward
copy_forward_lem src dst zero i a memory apart = ground arith
copy_forward_lem src dst (suc left) i a memory apart =
    copy_forward_lem src dst left (i + 1) a (update memory (dst + i) (memory (src + i)))
      (ground arith)
    ∙ ground arith

copy_backward_lem :
    (src dst count a : ℕ) (memory : ℕ → ℕ)
    → src < dst
    → copy_backward src dst count memory a
      ≡ (if within dst (dst + count) a then memory (src + (a - dst)) else memory a)
unfolding copy_backward
copy_backward_lem src dst zero a memory apart = ground arith
copy_backward_lem src dst (suc i) a memory apart =
    copy_backward_lem src dst i a (update memory (dst + i) (memory (src + i))) apart ∙ ground arith

-- For a source that ends within the address space, `copy` does not panic, and afterwards the destination
-- holds what the source held before, also where the two overlap, and every other byte is unchanged.
pub copy_lem :
    (src dst count : ℕ) (memory : ℕ → ℕ)
    → src + count < 2 ^ 32
    → (moved : ℕ → ℕ) × (copy src dst count memory ≡ ok moved)
      × ((a : ℕ)
          → moved a ≡ (if within dst (dst + count) a then memory (src + (a - dst)) else memory a))
unfolding copy
copy_lem src dst count memory fits = elim (lt_or_le src dst) [
  | inr le ↦ (
    copy_forward src dst count 0 memory,
    rw (le→ltb_false src dst le),
    λ a. copy_forward_lem src dst count 0 a memory (inl le) ∙ ground arith,
  )
  | inl lt ↦ elim (lt_or_le dst (src + count)) [
    | inl inside ↦ (
      copy_backward src dst count memory,
      rw (lt→ltb src dst lt, lt→ltb (src + count) (2 ^ 32) fits, lt→ltb dst (src + count) inside),
      λ a. copy_backward_lem src dst count a memory lt,
    )
    | inr apart ↦ (
      copy_forward src dst count 0 memory,
      rw (
        lt→ltb src dst lt,
        lt→ltb (src + count) (2 ^ 32) fits,
        le→ltb_false dst (src + count) apart,
      ),
      λ a. copy_forward_lem src dst count 0 a memory (inr (omega arith)) ∙ ground arith,
    )
  ]
]
