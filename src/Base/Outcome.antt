-- ===== src/Base/Outcome.antt =====
-- Code that ends: it returns, or it panics for a reason of its own and never because a loop of the model
-- ran out of rounds.
use Prim.Native.Nat.{ℕ, ◌+◌, ◌-◌, ◌*◌, ◌^◌}
use mathlib.Core.Logic.{◌≢◌}
use mathlib.Core.Bool.{Bool, true, false}
use mathlib.Core.Option.{Option, none, some}
use zkrnl.Base.Tests.{if◌then◌else◌, ltb}
use zkrnl.Base.Panic.{
  Fault, Result, ok, panic, fuel_spent, overflow, require, ◌>>=◌, add_usize, sub_usize, mul_usize,
}

-- The value that it returns satisfies `P`.
pub data Ends {A : Type 0} (P : A → Type 0) : Result A → Type 0 where
  returns : (a : A) → P a → Ends P (ok a)
  panics : (e : Fault) → e ≢ fuel_spent → Ends P (panic e)

-- It ends with any value.
abbrev pub Halts : {A : Type 0} → Result A → Type 0
Halts r = Ends (λ _. Unit {0}) r

pub >>=-Ends :
    {A B : Type 0} {P : A → Type 0} {Q : B → Type 0} {m : Result A} {f : A → Result B}
    → Ends P m
    → ((a : A) → P a → Ends Q (f a))
    → Ends Q (m >>= f)
>>=-Ends (returns a p) rest = rest a p
>>=-Ends (panics e real) rest = panics e real

pub if-Ends :
    {A : Type 0} {P : A → Type 0} (c : Bool) {x y : Result A}
    → Ends P x
    → Ends P y
    → Ends P (if c then x else y)
if-Ends true x y = x
if-Ends false x y = y

overflow-real : overflow ≢ fuel_spent
overflow-real = λ e. cc

pub require-Halts : (c : Bool) (e : Fault) → e ≢ fuel_spent → Halts (require c e)
require-Halts true e real = returns tt tt
require-Halts false e real = panics e real

pub add_usize-Halts : (a b : ℕ) → Halts (add_usize a b)
add_usize-Halts a b =
    if-Ends (ltb (a + b) (2 ^ 32)) (returns (a + b) tt) (panics overflow overflow-real)

pub sub_usize-Halts : (a b : ℕ) → Halts (sub_usize a b)
sub_usize-Halts a b = if-Ends (ltb a b) (panics overflow overflow-real) (returns (a - b) tt)

pub mul_usize-Halts : (a b : ℕ) → Halts (mul_usize a b)
mul_usize-Halts a b =
    if-Ends (ltb (a * b) (2 ^ 32)) (returns (a * b) tt) (panics overflow overflow-real)

-- The rest of the code after a call, by the cases of the value that it returned.
pub by_bool : (T : Bool → Type 0) → T true → T false → (c : Bool) → T c
by_bool T holds fails true = holds
by_bool T holds fails false = fails

pub by_option :
    {A : Type 0} (T : Option A → Type 0) → T none → ((a : A) → T (some a)) → (o : Option A) → T o
by_option T absent present none = absent
by_option T absent present (some a) = present a

-- A weaker postcondition.
pub weaken :
    {A : Type 0} {P Q : A → Type 0} {m : Result A} → Ends P m → ((a : A) → P a → Q a) → Ends Q m
weaken (returns a p) rest = returns a (rest a p)
weaken (panics e real) rest = panics e real

pub of_ok : {A : Type 0} {P : A → Type 0} {a : A} → Ends P (ok a) → P a
of_ok (returns a p) = p

pub of_panic : {A : Type 0} {P : A → Type 0} {e : Fault} → Ends P (panic e) → e ≢ fuel_spent
of_panic (panics e real) = real
