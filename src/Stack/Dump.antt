-- ===== src/Stack/Dump.antt =====
-- What the stack dump shows, and that it reads nothing outside the stack.
use zkrnl.Base.{
  ℕ, zero, suc, ◌+◌, ◌-◌, ◌*◌, ◌/◌, ◌%◌, ◌^◌, ◌≤◌, ◌<◌, min, ◌≡◌, refl, [], ok, Result, arith, ltb,
  leb, ◌==◌, if◌then◌else◌, inl, inr, Bool, true, false, Bool-cases, ◌||◌, lt→ltb, le→ltb_false,
  ◌++◌,
}
use zkrnl.Text.{Bytes, codes, decimal, hex_padded}
use zkrnl.Console.{Console, Shows, Shows-append}
use zkrnl.Stack.{StackBounds, dword_line, outside_line, dump_dwords, dump_within, dump_stack_from}

-- A stack in the address space.
pub record IsStack (b : StackBounds) : Type 0 where
  pub ordered : b.stack_bottom_addr ≤ b.stack_top_addr
  pub in_address_space : b.stack_top_addr < 2 ^ 32

-- Memory answers the aligned reads that lie wholly in the stack.
abbrev pub Answers : StackBounds → (ℕ → Result ℕ) → (ℕ → ℕ) → Type 0
Answers b load words =
    (a : ℕ) → a % 4 ≡ 0 → b.stack_bottom_addr ≤ a → a + 4 ≤ b.stack_top_addr → load a ≡ ok (words a)

-- The lines for `n` dwords from `addr` on.
abbrev pub dword_lines : (ℕ → ℕ) → ℕ → ℕ → Bytes
dword_lines words addr zero = []
dword_lines words addr (suc n) = dword_line addr (words addr) ++ dword_lines words (addr + 4) n

abbrev pub within_text : (ℕ → ℕ) → ℕ → ℕ → ℕ → ℕ → Bytes
within_text words addr misalignment shown available =
    (decimal shown ++ (codes "/" ++ decimal available))
    ++ ((if misalignment == 0
          then []
          else codes " misaligned start address " ++ hex_padded 10 (addr + misalignment))
        ++ (codes "\n" ++ dword_lines words addr shown))

-- The dump from `start`, rounded down to a dword: as many dwords as asked for and as the stack has.
abbrev pub dump_text : StackBounds → (ℕ → ℕ) → ℕ → ℕ → Bytes
dump_text b words start dword_count =
    let addr = start / 4 * 4 in
    let available = (b.stack_top_addr - addr) / 4 in
    codes "stack dump: "
    ++ (if ltb addr b.stack_bottom_addr || leb b.stack_top_addr addr
        then outside_line b addr
        else within_text words addr (start % 4) (min dword_count available) available)

module _ {S : Type 0} (c : Console S) (load : ℕ → Result ℕ) (b : StackBounds) (words : ℕ → ℕ)
    (answers : Answers b load words) (stack : IsStack b) where
  dump_dwords-eq :
      (addr left i at : ℕ) (s : S) {s' : S} {r : Result S}
      → at ≡ addr + i * 4
      → at < 2 ^ 32
      → load at ≡ ok (words at)
      → c.printk (dword_line at (words at)) s ≡ ok s'
      → dump_dwords c load addr left (i + 1) s' ≡ r
      → dump_dwords c load addr (suc left) i s ≡ r
  unfolding dump_dwords
  dump_dwords-eq addr left i at s e fits read shown rest =
      rw
        (
          lt→ltb (i * 4) (2 ^ 32) (omega arith),
          lt→ltb (addr + i * 4) (2 ^ 32) (omega arith),
          ← e,
          read,
          shown,
        )
        rest

  dump_dwords-lines :
      (addr left i at : ℕ) (s : S)
      → at ≡ addr + i * 4
      → addr % 4 ≡ 0
      → b.stack_bottom_addr ≤ addr
      → at + left * 4 ≤ b.stack_top_addr
      → c.IsReady s
      → (s' : S) × (c.printk (dword_lines words at left) s ≡ ok s')
        × (dump_dwords c load addr left i s ≡ ok s')
        × c.IsReady s'
  unfolding dump_dwords
  dump_dwords-lines addr zero i at s e aligned above fits ready = (s, c.printk-nil s, refl, ready)
  dump_dwords-lines addr (suc left) i at s e aligned above fits ready =
      let read = answers at (omega arith) (omega arith) (omega arith) in
      let (s', shown, ready') = c.printk-IsReady (dword_line at (words at)) s ready in
      let (s'', more, rest, ready'') =
        dump_dwords-lines addr left (i + 1) (at + 4) s' (omega arith) aligned above (omega arith)
          ready' in
      (
        s'',
        rw (c.printk-append (dword_line at (words at)) (dword_lines words (at + 4) left) s, shown)
            more,
        dump_dwords-eq addr left i at s e (omega (arith, stack.in_address_space)) read shown rest,
        ready'',
      )

  -- `printk!` of a text that is left out at alignment.
  maybe-Shows :
      (test : Bool) (text : Bytes) (s : S)
      → c.IsReady s
      → (s' : S) × ((if test then ok s else c.printk text s) ≡ ok s')
        × Shows c (if test then [] else text) s s'
  maybe-Shows true text s ready = (s, refl, (c.printk-nil s, ready))
  maybe-Shows false text s ready =
      let (s', e, ready') = c.printk-IsReady text s ready in (s', e, (e, ready'))

  dump_within-eq :
      (addr misalignment count : ℕ) (s : S) {s₁ s₂ s₃ s₄ : S}
      → addr ≤ b.stack_top_addr
      → c.printk
          (decimal (min count ((b.stack_top_addr - addr) / 4))
            ++ (codes "/" ++ decimal ((b.stack_top_addr - addr) / 4)))
          s
        ≡ ok s₁
      → (if misalignment == 0
          then ok s₁
          else c.printk
              (codes " misaligned start address " ++ hex_padded 10 (addr + misalignment))
              s₁)
        ≡ ok s₂
      → c.printk (codes "\n") s₂ ≡ ok s₃
      → dump_dwords c load addr (min count ((b.stack_top_addr - addr) / 4)) 0 s₃ ≡ ok s₄
      → dump_within c load b addr misalignment count s ≡ ok s₄
  unfolding dump_within
  dump_within-eq addr misalignment count s below head note line rest =
      rw (le→ltb_false b.stack_top_addr addr below, head, note, line) rest

  dump_within-Shows :
      (addr misalignment count : ℕ) (s : S)
      → addr % 4 ≡ 0
      → b.stack_bottom_addr ≤ addr
      → addr ≤ b.stack_top_addr
      → c.IsReady s
      → (s' : S) × (dump_within c load b addr misalignment count s ≡ ok s')
        × Shows c
            (within_text words addr misalignment
              (min count ((b.stack_top_addr - addr) / 4))
              ((b.stack_top_addr - addr) / 4))
            s
            s'
  dump_within-Shows addr misalignment count s aligned above below ready =
      let available : ℕ = (b.stack_top_addr - addr) / 4 in
      let shown : ℕ = min count available in
      let head : Bytes = decimal shown ++ (codes "/" ++ decimal available) in
      let off : Bytes = codes " misaligned start address " ++ hex_padded 10 (addr + misalignment) in
      let (s₁, e₁, ready₁) = c.printk-IsReady head s ready in
      let (s₂, e₂, note) = maybe-Shows (misalignment == 0) off s₁ ready₁ in
      let (s₃, e₃, ready₃) = c.printk-IsReady (codes "\n") s₂ note.1 in
      let (s₄, shows, e₄, ready₄) =
        dump_dwords-lines addr shown 0 addr s₃ (omega arith) aligned above (omega arith) ready₃ in
      (
        s₄,
        dump_within-eq addr misalignment count s below e₁ e₂ e₃ e₄,
        Shows-append c head _ (e₁, ready₁)
            (Shows-append c _ _ note (
              Shows-append c (codes "\n") (dword_lines words addr shown) (e₃, ready₃)
                (shows, ready₄))),
      )

  dump_stack_from-eq :
      (start count : ℕ) (s : S) {s₁ s₂ : S}
      → c.printk (codes "stack dump: ") s ≡ ok s₁
      → (if ltb (start / 4 * 4) b.stack_bottom_addr || leb b.stack_top_addr (start / 4 * 4)
          then c.printk (outside_line b (start / 4 * 4)) s₁
          else dump_within c load b (start / 4 * 4) (start % 4) count s₁)
        ≡ ok s₂
      → dump_stack_from c load b start count s ≡ ok s₂
  unfolding dump_stack_from
  dump_stack_from-eq start count s head rest =
      let down : start - start % 4 ≡ start / 4 * 4 = omega arith in
      rw (head, le→ltb_false start (start % 4) (omega arith), down) rest

  -- On a ready console, the stack dump from any address, of any number of dwords, does not fail, though
  -- memory need answer nothing but the aligned reads inside the stack: it shows exactly the dump text,
  -- which outside the bounds is one line, and inside them has a line for each dword asked for that lies
  -- between the rounded address and the top. The console stays ready.
  pub dump_stack_from-Shows :
      (start count : ℕ) (s : S)
      → c.IsReady s
      → (s' : S) × (dump_stack_from c load b start count s ≡ ok s')
        × Shows c (dump_text b words start count) s s'
  dump_stack_from-Shows start count s ready =
      let addr : ℕ = start / 4 * 4 in
      let (s₁, e₁, ready₁) = c.printk-IsReady (codes "stack dump: ") s ready in
      elim (Bool-cases (ltb addr b.stack_bottom_addr || leb b.stack_top_addr addr)) [
        | inl outside ↦
            let (s₂, e₂, ready₂) = c.printk-IsReady (outside_line b addr) s₁ ready₁ in
            (
              s₂,
              dump_stack_from-eq start count s e₁ (rw outside e₂),
              Shows-append c (codes "stack dump: ") _ (e₁, ready₁) (rw outside (e₂, ready₂)),
            )
        | inr inside ↦
            let (s₂, e₂, shows) =
              dump_within-Shows addr (start % 4) count s₁ (omega arith) (ground arith)
                (ground arith) ready₁ in
            (
              s₂,
              dump_stack_from-eq start count s e₁ (rw inside e₂),
              Shows-append c (codes "stack dump: ") _ (e₁, ready₁) (rw inside shows),
            )
      ]
