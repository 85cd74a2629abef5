-- ===== src/Base/Outcome.antt =====
-- How a call of the evaluator or of the bignum code ends: it returns, it unwinds by `nock_crash`
-- with a message, it unwinds by a budget abort with its reason, or it does what C leaves undefined: it
-- reads through a null pointer or writes past the end of an array. `spent` is no end of the code: it
-- says that a model on fuel was given too little.
use Prim.Native.Nat.{ℕ}
use Prim.Native.String.{String}
use mathlib.Core.Path.{◌≡◌, refl}
use native.Mathlib.Omega.{arith}

pub data Outcome {ℓ} (A : Type ℓ) : Type ℓ where
  ok : A → Outcome A
  crash : String → Outcome A
  budget : ℕ → Outcome A
  fault spent : Outcome A

infixl 5 ◌>>=◌
abbrev pub ◌>>=◌ {ℓ κ} : {A : Type ℓ} {B : Type κ} → Outcome A → (A → Outcome B) → Outcome B
ok a >>= f = f a
crash m >>= f = crash m
budget r >>= f = budget r
fault >>= f = fault
spent >>= f = spent

pub >>=-eq-ok {ℓ κ} :
    {A : Type ℓ} {B : Type κ} (o : Outcome A) (k : A → Outcome B) {c : B}
    → (o >>= k) ≡ ok c
    → (x : A) × (o ≡ ok x) × (k x ≡ ok c)
>>=-eq-ok (ok x) k e = (x, refl, e)
>>=-eq-ok (crash m) k e = absurd (ground (arith, e))
>>=-eq-ok (budget r) k e = absurd (ground (arith, e))
>>=-eq-ok fault k e = absurd (ground (arith, e))
>>=-eq-ok spent k e = absurd (ground (arith, e))

pub ok-injective {ℓ} : {A : Type ℓ} {a b : A} → ok a ≡ ok b → a ≡ b
ok-injective h = cc
