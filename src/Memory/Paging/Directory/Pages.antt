-- ===== src/Memory/Paging/Directory/Pages.antt =====
-- `paging::init`: what the finished directory maps.
use native.Mathlib.Decide.{ℕ_discrete}
use zkrnl.Base.{
  ℕ, zero, suc, ◌+◌, ◌*◌, ◌≤◌, ◌<◌, ◌≡◌, refl, ok, Result, arith, ◌==◌, if◌then◌else◌, update, ap,
  sym, Option, none, some, fun_ext,
}
use mathlib.Core.Path.{subst}
use zkrnl.Utils.Bits.Mask.{within}
use zkrnl.Memory.Paging.Directory.{Build, for_pages}
use zkrnl.Memory.Paging.Directory.Invariant.{IsBuilt}
use zkrnl.Memory.Paging.Directory.Table.{Budget}

-- What a loop body may do to the page `p`: give it an entry, or skip it.
abbrev pub put : Option ℕ → ℕ → (ℕ → ℕ) → ℕ → ℕ
put none p pte = pte
put (some e) p pte = update pte p e

-- The body handles the pages of one slot, from `lo` to `hi - 1`, by `entry`.
abbrev pub Handles : ℕ → ℕ → ℕ → ℕ → (ℕ → Option ℕ) → (ℕ → Build → Result Build) → ℕ → Type 0
Handles pd idx lo hi entry body n =
    (p : ℕ) (pte : ℕ → ℕ) (s : Build)
    → lo ≤ p
    → p < hi
    → IsBuilt pd pte s
    → Budget pd idx n s
    → (s' : Build) × (body (p * 4096) s ≡ ok s')
      × IsBuilt pd (put (entry p) p pte) s'
      × Budget pd idx n s'

-- The entries after the pages from `lo` to `hi - 1` have been handled.
abbrev pub put_all : (ℕ → Option ℕ) → ℕ → ℕ → (ℕ → ℕ) → ℕ → ℕ
put_all entry lo hi pte f =
    if within lo hi f then elim (entry f) [ none ↦ pte f | some e ↦ e ] else pte f

put-eq :
    (o : Option ℕ) (p f : ℕ) (pte : ℕ → ℕ)
    → put o p pte f ≡ (if p == f then elim o [ none ↦ pte f | some e ↦ e ] else pte f)
put-eq none p f pte = ground arith
put-eq (some e) p f pte = ground arith

put_all-step :
    (entry : ℕ → Option ℕ) (p hi f : ℕ) (pte : ℕ → ℕ)
    → p < hi
    → put_all entry (p + 1) hi (put (entry p) p pte) f ≡ put_all entry p hi pte f
put_all-step entry p hi f pte h = elim (ℕ_discrete p f) [
  | yes same ↦ ground (arith, put-eq (entry p) p f pte, ap entry same)
  | no other ↦ ground (arith, put-eq (entry p) p f pte)
]

for_pages-step :
    (body : ℕ → Build → Result Build) (rounds a : ℕ) (s : Build) {s' s'' : Build}
    → body a s ≡ ok s'
    → for_pages body rounds (a + 4096) s' ≡ ok s''
    → for_pages body (suc rounds) a s ≡ ok s''
unfolding for_pages
for_pages-step body rounds a s e e' = rw e e'

pub for_pages_lem :
    (pd idx lo hi : ℕ) (entry : ℕ → Option ℕ) (body : ℕ → Build → Result Build) (n : ℕ)
    → Handles pd idx lo hi entry body n
    → (rounds p a : ℕ) (pte : ℕ → ℕ) (s : Build) → a ≡ p * 4096
    → lo ≤ p
    → p + rounds ≡ hi
    → IsBuilt pd pte s
    → Budget pd idx n s
    → (s' : Build) × (for_pages body rounds a s ≡ ok s')
      × IsBuilt pd (put_all entry p hi pte) s'
      × Budget pd idx n s'
unfolding for_pages
for_pages_lem pd idx lo hi entry body n handles zero p a pte s at above ends b budget =
    let same : pte ≡ put_all entry p hi pte = fun_ext λ f. ground arith in
    (s, refl, subst (λ m. IsBuilt pd m s) same b, budget)
for_pages_lem pd idx lo hi entry body n handles (suc rounds) p a pte s at above ends b budget =
    let (s', e, b', budget') = handles p pte s above (omega arith) b budget in
    let (s'', e', b'', budget'') =
      for_pages_lem pd idx lo hi entry body n handles rounds (p + 1) (a + 4096)
        (put (entry p) p pte) s' (omega arith) (omega arith) (omega arith) b' budget' in
    let same : put_all entry (p + 1) hi (put (entry p) p pte) ≡ put_all entry p hi pte =
      fun_ext λ f. put_all-step entry p hi f pte (omega arith) in
    (
      s'',
      for_pages-step body rounds a s (subst (λ x. body x s ≡ ok s') (sym at) e) e',
      subst (λ m. IsBuilt pd m s'') same b'',
      budget'',
    )
