-- ===== src/Prelude/Tests.antt =====
-- Boolean tests on the native numbers, the conditional, and the outcomes of code that may abort.
use Prim.Native.Nat.{ℕ, compare, Ordering}
use mathlib.Core.Path.{◌≡◌, refl}
use mathlib.Core.Logic.{◌↔◌, ◌⊎◌, inl, inr}
use mathlib.Core.Bool.{Bool, true, false}
use mathlib.Core.Option.{Option, none, some}
use native.Mathlib.Omega.{arith}

abbrev pub ltb : ℕ → ℕ → Bool
ltb a b = elim (compare a b) [ Ordering.lt ↦ true | _ ↦ false ]

abbrev pub leb : ℕ → ℕ → Bool
leb a b = elim (compare a b) [ Ordering.gt ↦ false | _ ↦ true ]

infix 50 ◌==◌
abbrev pub ◌==◌ : ℕ → ℕ → Bool
a == b = elim (compare a b) [ Ordering.eq ↦ true | _ ↦ false ]

infix 1 if◌then◌else◌
abbrev pub if◌then◌else◌ {ℓ} : {A : Type ℓ} → Bool → A → A → A
if true then x else y = x
if false then x else y = y

pub ==_iff : (a b : ℕ) → ((a == b) ≡ true) ↔ (a ≡ b)
==_iff a b = ground arith

pub ==_refl : (a : ℕ) → (a == a) ≡ true
==_refl a = ground arith

pub Bool-cases : (b : Bool) → (b ≡ true) ⊎ (b ≡ false)
Bool-cases true = inl refl
Bool-cases false = inr refl

pub Option-cases {ℓ} : {A : Type ℓ} (o : Option A) → (o ≡ none) ⊎ ((a : A) × (o ≡ some a))
Option-cases none = inl refl
Option-cases (some a) = inr (a, refl)

-- How a run can stop: a failed assertion, `exit(EXIT_FAILURE)`, and a behaviour that C++ leaves
-- undefined.
pub data Failure : Type 0 where
  assertion exit_failure undefined : Failure

module _ {ℓ} where
  pub data Result (Value : Type ℓ) : Type ℓ where
    err : Failure → Result Value
    ok : Value → Result Value

  pub Result-cases :
      {A : Type ℓ} (r : Result A) → ((a : A) × (r ≡ ok a)) ⊎ ((e : Failure) × (r ≡ err e))
  Result-cases (err e) = inr (e, refl)
  Result-cases (ok a) = inl (a, refl)

  pub ok-inj : {A : Type ℓ} (a b : A) → ok a ≡ ok b → a ≡ b
  ok-inj a b h = cc

  abbrev pub or_fail : {A : Type ℓ} → Option A → Failure → Result A
  or_fail (some a) e = ok a
  or_fail none e = err e

-- The rest of the code runs on the value; a failure skips it.
infixl 5 ◌>>=◌
abbrev pub ◌>>=◌ {ℓ κ} : {A : Type ℓ} {C : Type κ} → Result A → (A → Result C) → Result C
err stop >>= rest = err stop
ok value >>= rest = rest value

-- A chain that succeeds has a first step that did.
pub >>=-eq-ok {ℓ κ} :
    {A : Type ℓ} {C : Type κ} (first : Result A) (rest : A → Result C) {last : C}
    → (first >>= rest) ≡ ok last
    → (value : A) × (first ≡ ok value) × (rest value ≡ ok last)
>>=-eq-ok (err stop) rest h = cc
>>=-eq-ok (ok value) rest h = (value, refl, h)
