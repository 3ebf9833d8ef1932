-- ===== src/Prelude/Outcomes.antt =====
-- Code that may raise: an outcome is a value or a Python exception.
use mathlib.Core.Path.{◌≡◌, refl}
use mathlib.Core.Bool.{Bool, true, false}
use mathlib.Core.List.{List}
use mathlib.Core.Option.{Option, none, some}
use Prim.Native.Nat.{ℕ}
use diflow.Prelude.Lists.{get_elem?}

pub data Error : Type 0 where
  value_error key_error index_error type_error : Error
  zero_division assertion_error unbound_local runtime_error : Error
  missing_profile unsupported_profile unusable_profile : Error

pub data Outcome {ℓ} (A : Type ℓ) : Type ℓ where
  ok : A → Outcome A
  raise : Error → Outcome A

-- What follows a call runs only if the call returned.
infixl 5 ◌>>=◌ ◌>>◌
abbrev pub ◌>>=◌ {ℓ κ} : {A : Type ℓ} {B : Type κ} → Outcome A → (A → Outcome B) → Outcome B
raise e >>= next = raise e
ok a >>= next = next a

abbrev pub ◌>>◌ {ℓ} : {B : Type ℓ} → Outcome (Unit {0}) → Outcome B → Outcome B
first >> rest = first >>= λ _. rest

-- `if not b: raise e`
abbrev pub require : Bool → Error → Outcome (Unit {0})
require true e = ok tt
require false e = raise e

abbrev pub or_raise {ℓ} : {A : Type ℓ} → Error → Option A → Outcome A
or_raise e none = raise e
or_raise e (some a) = ok a

-- `xs[i]` for an index that is not negative.
abbrev pub at {ℓ} : {A : Type ℓ} → List A → ℕ → Outcome A
at xs i = or_raise index_error (get_elem? xs i)

-- A chain that succeeds had a first part that succeeds.
pub >>=-eq-ok {ℓ κ} :
    {A : Type ℓ} {B : Type κ} (first : Outcome A) (next : A → Outcome B) {b : B}
    → (first >>= next) ≡ ok b
    → (a : A) × (first ≡ ok a) × (next a ≡ ok b)
>>=-eq-ok (raise e) next h = cc
>>=-eq-ok (ok a) next h = (a, refl, h)

pub ok-injective {ℓ} : {A : Type ℓ} {a b : A} → ok a ≡ ok b → a ≡ b
ok-injective h = cc

pub or_raise-eq-ok {ℓ} :
    {A : Type ℓ} (e : Error) (o : Option A) {a : A} → or_raise e o ≡ ok a → o ≡ some a
or_raise-eq-ok e none h = cc
or_raise-eq-ok e (some b) h = cc

pub require-eq-ok {ℓ} :
    {A : Type ℓ} (b : Bool) (e : Error) {k : Outcome A} {a : A}
    → (require b e >> k) ≡ ok a
    → (b ≡ true) × (k ≡ ok a)
require-eq-ok true e h = (refl, h)
require-eq-ok false e h = cc
