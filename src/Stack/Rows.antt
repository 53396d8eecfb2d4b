-- ===== src/Stack/Rows.antt =====
-- src/stack.rs: the rows of the screen that the stack dump takes.
use zkrnl.Base.{
  ℕ, zero, suc, ◌+◌, ◌-◌, ◌*◌, ◌/◌, ◌%◌, ◌^◌, ◌≤◌, ◌<◌, min, ◌≡◌, refl, [], ◌∷◌, arith, ltb, leb,
  ◌==◌, if◌then◌else◌, inl, inr, Bool, true, false, Bool-cases, ◌||◌, ◌++◌, length, ap,
  lt→leb_false, ◌∙◌,
}
use zkrnl.Text.{Bytes, codes, decimal, hex_padded}
use zkrnl.Text.Ascii.{IsLine, is_line-IsLine, decimal-IsLine, hex_padded-IsLine, All-append}
use zkrnl.Text.Digits.{length-append, length-decimal, length-hex_padded}
use zkrnl.Stack.{StackBounds, dword_line, outside_line}
use zkrnl.Stack.Dump.{IsStack, dword_lines, within_text, dump_text}
use zkrnl.Vga.Rows.{new_rows}

-- A text that begins at most `k` rows where its first row has room for `w` more columns.
abbrev TakesRows : ℕ → ℕ → Bytes → Type 0
TakesRows w k text = (col : ℕ) → col + w ≤ 80 → new_rows text col ≤ k

line-TakesRows :
    (text more : Bytes) (n w k : ℕ)
    → IsLine text
    → length text ≤ n
    → TakesRows w k more
    → TakesRows (n + w) k (text ++ more)
line-TakesRows [] more n w k h short takes col room = takes col (omega arith)
line-TakesRows (byte ∷ text) more n w k (p, ps) short takes col room =
    let is_char : (byte == 0x0A) ≡ false = ground arith in
    rw (is_char, lt→leb_false 80 col (omega arith))
      (omega (
        arith,
        line-TakesRows text more (n - 1) w k ps (omega arith) takes (col + 1) (omega arith),
      ))

feed-TakesRows :
    (text : Bytes) (w k : ℕ)
    → w ≤ 80
    → TakesRows w k text
    → TakesRows 0 (suc k) (codes "\n" ++ text)
feed-TakesRows text w k narrow takes col room = omega (arith, takes 0 (omega arith))

append_assoc : (xs ys zs : Bytes) → (xs ++ ys) ++ zs ≡ xs ++ (ys ++ zs)
append_assoc [] ys zs = refl
append_assoc (x ∷ xs) ys zs = ap (λ l. x ∷ l) (append_assoc xs ys zs)

dword_line-append :
    (addr value : ℕ) (more : Bytes)
    → dword_line addr value ++ more
      ≡ hex_padded 10 addr ++ (codes ": " ++ (hex_padded 10 value ++ (codes "\n" ++ more)))
unfolding dword_line
dword_line-append addr value more =
    append_assoc (hex_padded 10 addr) _ more
    ∙ ap (λ l. hex_padded 10 addr ++ (codes ": " ++ l))
        (append_assoc (hex_padded 10 value) (codes "\n") more)

hex-TakesRows :
    (n : ℕ) (more : Bytes) (w k : ℕ)
    → n < 2 ^ 32
    → TakesRows w k more
    → TakesRows (10 + w) k (hex_padded 10 n ++ more)
hex-TakesRows n more w k h takes =
    line-TakesRows (hex_padded 10 n) more 10 w k (hex_padded-IsLine 10 n)
      (omega (arith, length-hex_padded n h)) takes

dword_lines-TakesRows :
    (words : ℕ → ℕ) (addr n : ℕ)
    → ((a : ℕ) → words a < 2 ^ 32)
    → addr + n * 4 ≤ 2 ^ 32
    → TakesRows 22 n (dword_lines words addr n)
dword_lines-TakesRows words addr zero u32 fits = λ col room. omega arith
dword_lines-TakesRows words addr (suc n) u32 fits =
    rw (dword_line-append addr (words addr) (dword_lines words (addr + 4) n)) (
      hex-TakesRows addr _ 12 (suc n) (omega arith) (
        line-TakesRows (codes ": ") _ 2 10 (suc n) (is_line-IsLine (codes ": ") refl) (omega arith)
          (hex-TakesRows (words addr) _ 0 (suc n) (u32 addr) (
            feed-TakesRows (dword_lines words (addr + 4) n) 22 n (omega arith)
              (dword_lines-TakesRows words (addr + 4) n u32 (omega arith))))))

mid-TakesRows :
    (test : Bool) (text more : Bytes) (n w k : ℕ)
    → IsLine text
    → length text ≤ n
    → TakesRows w k more
    → TakesRows (n + w) k ((if test then [] else text) ++ more)
mid-TakesRows true text more n w k h short takes = λ col room. takes col (omega arith)
mid-TakesRows false text more n w k h short takes = line-TakesRows text more n w k h short takes

outside_line-TakesRows :
    (b : StackBounds) (addr : ℕ) → IsStack b → addr < 2 ^ 32 → TakesRows 56 1 (outside_line b addr)
unfolding outside_line
outside_line-TakesRows b addr stack inside =
    let text : Bytes = codes " not within stack bounds " in
    hex-TakesRows addr _ 46 1 inside (
      line-TakesRows text _ 25 21 1 (is_line-IsLine text refl) (omega arith) (
        hex-TakesRows b.stack_bottom_addr _ 11 1
          (omega (arith, stack.ordered, stack.in_address_space))
          (line-TakesRows (codes "-") _ 1 10 1 (is_line-IsLine (codes "-") refl) (omega arith) (
            hex-TakesRows b.stack_top_addr _ 0 1 stack.in_address_space
              (feed-TakesRows [] 0 0 (omega arith) λ col room. omega arith)))))

counts-IsLine : (shown available : ℕ) → IsLine (decimal shown ++ (codes "/" ++ decimal available))
counts-IsLine shown available =
    All-append (λ b. 0x20 ≤ b) (decimal shown) _ (decimal-IsLine shown)
      (All-append (λ b. 0x20 ≤ b) (codes "/") (decimal available) (is_line-IsLine (codes "/") refl)
        (decimal-IsLine available))

length-counts :
    (shown available : ℕ)
    → shown < 2 ^ 32
    → available < 2 ^ 32
    → length (decimal shown ++ (codes "/" ++ decimal available)) ≤ 21
length-counts shown available p q = omega (
  arith,
  length-append (decimal shown) (codes "/" ++ decimal available),
  length-decimal shown p,
  length-decimal available q,
)

within_text-TakesRows :
    (words : ℕ → ℕ) (addr misalignment shown available : ℕ)
    → ((a : ℕ) → words a < 2 ^ 32)
    → addr + shown * 4 ≤ 2 ^ 32
    → addr + misalignment < 2 ^ 32
    → available < 2 ^ 32
    → TakesRows 57 (suc shown) (within_text words addr misalignment shown available)
within_text-TakesRows words addr misalignment shown available u32 fits start few =
    let off : Bytes = codes " misaligned start address " in
    let note : Bytes = off ++ hex_padded 10 (addr + misalignment) in
    line-TakesRows (decimal shown ++ (codes "/" ++ decimal available)) _ 21 36 (suc shown)
      (counts-IsLine shown available) (length-counts shown available (omega arith) few)
      (mid-TakesRows (misalignment == 0) note _ 36 0 (suc shown)
        (All-append (λ b. 0x20 ≤ b) off _ (is_line-IsLine off refl)
          (hex_padded-IsLine 10 (addr + misalignment)))
        (omega (
          arith,
          length-append off (hex_padded 10 (addr + misalignment)),
          length-hex_padded (addr + misalignment) start,
        ))
        (feed-TakesRows (dword_lines words addr shown) 22 shown (omega arith)
          (dword_lines-TakesRows words addr shown u32 fits)))

-- On words of 32 bits, the dump begins no more rows than one for its first line and one for each dword.
pub dump_text-rows :
    (b : StackBounds) (words : ℕ → ℕ) (start count : ℕ)
    → IsStack b
    → ((a : ℕ) → words a < 2 ^ 32)
    → start < 2 ^ 32
    → new_rows (dump_text b words start count) 0 ≤ 1 + count
dump_text-rows b words start count stack u32 inside =
    let addr : ℕ = start / 4 * 4 in
    let available : ℕ = (b.stack_top_addr - addr) / 4 in
    let head : Bytes = codes "stack dump: " in
    elim (Bool-cases (ltb addr b.stack_bottom_addr || leb b.stack_top_addr addr)) [
      | inl out ↦ rw out (
          omega (
            arith,
            line-TakesRows head (outside_line b addr) 12 56 1 (is_line-IsLine head refl)
                (omega arith) (outside_line-TakesRows b addr stack (omega arith)) 0 (omega arith),
          ))
      | inr within ↦
          let below : addr < b.stack_top_addr = ground arith in
          rw within (
            omega (
              arith,
              line-TakesRows head
                  (within_text words addr (start % 4) (min count available) available) 12 57
                  (suc (min count available)) (is_line-IsLine head refl) (omega arith)
                  (within_text-TakesRows words addr (start % 4) (min count available) available u32
                    (omega (arith, stack.in_address_space)) (omega arith)
                    (omega (arith, stack.in_address_space)))
                  0 (omega arith),
            ))
    ]
