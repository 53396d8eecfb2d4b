-- ===== src/Base/Panic.antt =====
-- Code that can panic. The kernel is built in Cargo's dev profile, with overflow checks and debug
-- assertions on, and a panic never returns: a computation gives a value or the reason of its panic.
use Prim.Native.Nat.{ℕ, ◌+◌, ◌-◌, ◌*◌, ◌^◌}
use mathlib.Core.Path.{◌≡◌, refl}
use mathlib.Core.Bool.{Bool}
use zkrnl.Base.Tests.{ltb, if◌then◌else◌}

-- `page_fault` is the processor's, at an address that no page maps. `fuel_spent` is no panic of the code:
-- it marks a loop of the model that ran out of rounds.
pub data Fault : Type 0 where
  overflow out_of_bounds assertion double_free out_of_frames no_memory_map : Fault
  above_identity_map bad_magic page_fault fuel_spent : Fault

pub data Result {ℓ} (A : Type ℓ) : Type ℓ where
  ok : A → Result A
  panic : Fault → Result A

-- `assert!`, and an index that is checked before it is used.
abbrev pub require : Bool → Fault → Result (Unit {0})
require holds fault = if holds then ok tt else panic fault

-- The rest of the code after a call that may panic.
infixl 5 ◌>>=◌ ◌>>◌
abbrev pub ◌>>=◌ {κ μ} : {S : Type κ} {T : Type μ} → Result S → (S → Result T) → Result T
panic fault >>= rest = panic fault
ok value >>= rest = rest value

abbrev pub ◌>>◌ {μ} : {T : Type μ} → Result (Unit {0}) → Result T → Result T
check >> rest = check >>= λ _. rest

-- Arithmetic on `usize`, which is 32 bits wide, with the overflow checks of the dev profile.
abbrev pub add_usize : ℕ → ℕ → Result ℕ
add_usize a b = if ltb (a + b) (2 ^ 32) then ok (a + b) else panic overflow

abbrev pub sub_usize : ℕ → ℕ → Result ℕ
sub_usize a b = if ltb a b then panic overflow else ok (a - b)

abbrev pub mul_usize : ℕ → ℕ → Result ℕ
mul_usize a b = if ltb (a * b) (2 ^ 32) then ok (a * b) else panic overflow

pub >>=-assoc {ℓ κ μ} :
    {A : Type ℓ} {B : Type κ} {C : Type μ} (m : Result A) (f : A → Result B) (g : B → Result C)
    → (m >>= f >>= g) ≡ (m >>= λ a. f a >>= g)
>>=-assoc (ok a) f g = refl
>>=-assoc (panic e) f g = refl

pub >>=-cong {ℓ κ} :
    {A : Type ℓ} {B : Type κ} (m : Result A) (f g : A → Result B)
    → ((a : A) → f a ≡ g a)
    → (m >>= f) ≡ (m >>= g)
>>=-cong (ok a) f g h = h a
>>=-cong (panic e) f g h = refl
