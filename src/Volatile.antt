-- ===== src/Volatile.antt =====
-- src/volatile.rs: `copy` on bytes. The memory is a function from byte addresses.
pub mod Move
use zkrnl.Base.{ℕ, zero, suc, ◌+◌, Result, ok, ◌>>=◌, add_usize, ltb, if◌then◌else◌, update}

-- `for i in 0..count`, from `i` on with so many rounds left.
unfoldable pub copy_forward : ℕ → ℕ → ℕ → ℕ → (ℕ → ℕ) → ℕ → ℕ
copy_forward src dst zero i memory = memory
copy_forward src dst (suc left) i memory =
    copy_forward src dst left (i + 1) (update memory (dst + i) (memory (src + i)))

-- `for i in (0..count).rev()`
unfoldable pub copy_backward : ℕ → ℕ → ℕ → (ℕ → ℕ) → ℕ → ℕ
copy_backward src dst zero memory = memory
copy_backward src dst (suc i) memory =
    copy_backward src dst i (update memory (dst + i) (memory (src + i)))

-- `volatile::copy` of elements of one byte; `&&` evaluates the sum only if `dst` is the larger.
unfoldable pub copy : ℕ → ℕ → ℕ → (ℕ → ℕ) → Result (ℕ → ℕ)
copy src dst count memory =
    if ltb src dst
    then (add_usize src count >>= λ limit. ok (
        if ltb dst limit
        then copy_backward src dst count memory
        else copy_forward src dst count 0 memory))
    else ok (copy_forward src dst count 0 memory)
