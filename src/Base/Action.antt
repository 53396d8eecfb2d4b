-- ===== src/Base/Action.antt =====
-- Code with a state that outlives a panic: what was written stays written.
use mathlib.Core.Path.{◌≡◌, refl, ap, ◌∙◌}
use mathlib.Core.Logic.{◌⊎◌, inl, inr}
use zkrnl.Base.Panic.{Fault, Result, ok, panic, ◌>>=◌ as then_do, >>=-assoc as panic_assoc}

abbrev pub Action : Type 0 → Type 0 → Type 0
Action S A = S → Result A × S

infixl 5 ◌>>=◌ ◌>>◌
abbrev pub ◌>>=◌ : {S A B : Type 0} → Action S A → (A → Action S B) → Action S B
◌>>=◌ m f s = let (r, s') = m s in elim r [ ok a ↦ f a s' | panic e ↦ (panic e, s') ]

abbrev pub ◌>>◌ : {S A B : Type 0} → Action S A → Action S B → Action S B
m >> k = m >>= λ _. k

abbrev pub pure : {S A : Type 0} → A → Action S A
pure a s = (ok a, s)

-- A computation that does not touch the state.
abbrev pub compute : {S A : Type 0} → Result A → Action S A
compute r s = (r, s)

-- A single operation on the state. One that panics counts as not begun.
abbrev pub perform : {S : Type 0} → (S → Result S) → Action S (Unit {0})
perform f s = elim (f s) [ ok s' ↦ (ok tt, s') | panic e ↦ (panic e, s) ]

-- The result with the state at the end, which a panic drops.
abbrev pub join : {S A : Type 0} → Result A × S → Result (A × S)
join (ok a, s) = ok (a, s)
join (panic e, s) = panic e

pub >>=-join :
    {S A B : Type 0} (m : Action S A) (f : A → Action S B) (s : S)
    → join ((m >>= f) s) ≡ then_do (join (m s)) (λ (a, s'). join (f a s'))
>>=-join {S} {A} m f s = by_cases (m s)
  where
    by_cases :
        (p : Result A × S)
        → join (elim p.0 [ ok a ↦ f a p.1 | panic e ↦ (panic e, p.1) ])
          ≡ then_do (join p) (λ (a, s'). join (f a s'))
    by_cases (ok a, s') = refl
    by_cases (panic e, s') = refl

pub join-perform :
    {S : Type 0} (f : S → Result S) (s : S) → join (perform f s) ≡ then_do (f s) (λ s'. ok (tt, s'))
join-perform {S} f s = by_cases (f s)
  where
    by_cases :
        (r : Result S)
        → join {S = S} {A = Unit {0}} (elim r [ ok s' ↦ (ok tt, s') | panic e ↦ (panic e, s) ])
          ≡ then_do r (λ s'. ok (tt, s'))
    by_cases (ok s') = refl
    by_cases (panic e) = refl

pub join-compute :
    {S A : Type 0} (r : Result A) (s : S) → join (compute r s) ≡ then_do r (λ a. ok (a, s))
join-compute (ok a) s = refl
join-compute (panic e) s = refl

pub Result-cases :
    {A : Type 0} (r : Result A) → ((a : A) × (r ≡ ok a)) ⊎ ((e : Fault) × (r ≡ panic e))
Result-cases (ok a) = inl (a, refl)
Result-cases (panic e) = inr (e, refl)

-- An operation, or a computation, and the rest of the code.
pub perform-then :
    {S A : Type 0} (f : S → Result S) (rest : Unit {0} → Action S A) (s : S)
    → join ((perform f >>= rest) s) ≡ then_do (f s) (λ s'. join (rest tt s'))
perform-then {S} {A} f rest s = by_cases (f s)
  where
    by_cases :
        (r : Result S)
        → join (
            let (a, s') = elim r as (λ _. Result (Unit {0}) × S) [
              | ok s' ↦ (ok tt, s')
              | panic e ↦ (panic e, s)
            ] in
            elim a [ ok u ↦ rest u s' | panic e ↦ (panic e, s') ])
          ≡ then_do r (λ s'. join (rest tt s'))
    by_cases (ok s') = refl
    by_cases (panic e) = refl

pub compute-then :
    {S A B : Type 0} (r : Result A) (rest : A → Action S B) (s : S)
    → join ((compute r >>= rest) s) ≡ then_do r (λ a. join (rest a s))
compute-then (ok a) rest s = refl
compute-then (panic e) rest s = refl

-- The same, followed by more code that sees the state at the end.
module _ {S A C : Type 0} (more : A × S → Result C) where
  pub perform-more :
      (f : S → Result S) (rest : Unit {0} → Action S A) (s : S)
      → then_do (join ((perform f >>= rest) s)) more
        ≡ then_do (f s) (λ s'. then_do (join (rest tt s')) more)
  perform-more f rest s =
      ap (λ x. then_do x more) (perform-then f rest s)
      ∙ panic_assoc (f s) (λ s'. join (rest tt s')) more

  pub compute-more :
      {B : Type 0} (r : Result B) (rest : B → Action S A) (s : S)
      → then_do (join ((compute r >>= rest) s)) more
        ≡ then_do r (λ b. then_do (join (rest b s)) more)
  compute-more r rest s =
      ap (λ x. then_do x more) (compute-then r rest s) ∙ panic_assoc r (λ b. join (rest b s)) more

  pub >>=-more :
      {B : Type 0} (m : Action S B) (rest : B → Action S A) (s : S)
      → then_do (join ((m >>= rest) s)) more
        ≡ then_do (join (m s)) (λ (b, s'). then_do (join (rest b s')) more)
  >>=-more m rest s =
      ap (λ x. then_do x more) (>>=-join m rest s)
      ∙ panic_assoc (join (m s)) (λ (b, s'). join (rest b s')) more

-- What holds of the state at the end, at a panic too.
pub >>=-Keeps :
    {S A B : Type 0} (P : S → Type 0) (m : Action S A) (f : A → Action S B) (s : S)
    → P (m s).1
    → ((a : A) (s' : S) → P s' → P (f a s').1)
    → P ((m >>= f) s).1
>>=-Keeps {S} {A} {B} P m f s now later = by_cases (m s) now
  where
    by_cases :
        (p : Result A × S)
        → P p.1
        → P (elim p.0 as (λ _. Result B × S) [ ok a ↦ f a p.1 | panic e ↦ (panic e, p.1) ]).1
    by_cases (ok a, s') h = later a s' h
    by_cases (panic e, s') h = h

pub perform-Keeps :
    {S : Type 0} (P : S → Type 0) (f : S → Result S) (s : S)
    → P s
    → ((s' : S) → f s ≡ ok s' → P s')
    → P (perform f s).1
perform-Keeps {S} P f s now later = by_cases (f s) refl
  where
    by_cases :
        (r : Result S)
        → f s ≡ r
        → P
            (elim r as (λ _. Result (Unit {0}) × S) [
              | ok s' ↦ (ok tt, s')
              | panic e ↦ (panic e, s)
            ]).1
    by_cases (ok s') e = later s' e
    by_cases (panic e) h = now

-- A step whose result is known.
module _ {S A B : Type 0} {s : S} where
  pub after_ok :
      (m : Action S A) (f : A → Action S B) {a : A} {s' : S}
      → m s ≡ (ok a, s')
      → (m >>= f) s ≡ f a s'
  after_ok m f e =
      ap (λ p. elim p.0 as (λ _. Result B × S) [ ok a ↦ f a p.1 | panic e ↦ (panic e, p.1) ]) e

  pub after_panic :
      (m : Action S A) (f : A → Action S B) {e : Fault} {s' : S}
      → m s ≡ (panic e, s')
      → (m >>= f) s ≡ (panic e, s')
  after_panic m f e =
      ap (λ p. elim p.0 as (λ _. Result B × S) [ ok a ↦ f a p.1 | panic e ↦ (panic e, p.1) ]) e

pub perform-ok :
    {S : Type 0} (f : S → Result S) {s s' : S} → f s ≡ ok s' → perform f s ≡ (ok tt, s')
perform-ok {S} f {s} e =
    ap
      (λ r. elim r as (λ _. Result (Unit {0}) × S) [ ok s' ↦ (ok tt, s') | panic e ↦ (panic e, s) ])
      e
