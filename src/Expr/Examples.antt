-- ===== src/Expr/Examples.antt =====
-- Expressions of a workflow that guides from a scale on.
use mathlib.Core.Path.{subst}
use diflow.Prelude.{
  ◌≡◌, refl, Bool, true, not, Option, none, some, [], ◌∷◌, String, ◌==◌, string_eq, Dict, lookup,
  contains, member, ok, raise, type_error, nat_beq, Bool-cases, inl, inr, sym,
}
use diflow.Json.{ℤ, pos, negsuc, Scalar, get}
use diflow.Expr.{
  Values, Expr, input_ref, binop, unaryop, free_inputs, eval, to_dict, from_dict, from_kind,
}
use diflow.Expr.Reads.{eval-AgreeOn, eval-found}
use diflow.Expr.Wire.{is_valid, from_dict-to_dict, from_dict-is_valid}

-- Scalars as values, with their truth and no arithmetic.
abbrev pub truth_of : Scalar → Bool
truth_of (Scalar.int (pos n)) = not (nat_beq n 0)
truth_of (Scalar.int (negsuc n)) = true
truth_of (Scalar.float x) = true
truth_of (Scalar.bool b) = b
truth_of (Scalar.str s) = not (s == "")

abbrev pub int_of : Scalar → Option ℤ
int_of (Scalar.int n) = some n
int_of (Scalar.float x) = none
int_of (Scalar.bool b) = none
int_of (Scalar.str s) = none

abbrev pub scalars : Values
scalars = record {
  Value = Scalar;
  of_scalar = λ c. c;
  truth = truth_of;
  arithmetic = λ f a b. raise type_error;
  convert = λ f a. raise type_error;
  as_int = int_of;
}

-- `not guided or steps`
abbrev predicate : Expr
predicate = binop "or" (unaryop "not" (input_ref "guided")) (input_ref "steps")

abbrev request : Dict String Scalar
request = ("guided", Scalar.bool true) ∷ ("steps", Scalar.int (pos 2)) ∷ []

abbrev other_request : Dict String Scalar
other_request =
    ("seed", Scalar.int (pos 7)) ∷ ("guided", Scalar.bool true) ∷ ("steps", Scalar.int (pos 2)) ∷ []

evaluated : eval scalars predicate request ≡ ok (Scalar.bool true)
unfolding eval lookup
evaluated = refl

valid : is_valid predicate ≡ true
unfolding is_valid lookup
valid = refl

read : from_dict (to_dict predicate) ≡ ok predicate
unfolding from_dict to_dict from_kind lookup get
read = refl

agree :
    (x : String)
    → member x (free_inputs predicate) ≡ true
    → lookup x request ≡ lookup x other_request
unfolding member lookup free_inputs
agree x m = elim (Bool-cases ("seed" == x)) [
  | inr other ↦ rw other refl
  | inl same ↦
      let absent =
        subst (λ y. member y (free_inputs predicate) ≡ true)
          (sym ((string_eq.beq_iff "seed" x).0 same)) m in
      cc
]

names_steps : member "steps" (free_inputs predicate) ≡ true
unfolding member free_inputs
names_steps = refl

eval-AgreeOn_example : eval scalars predicate request ≡ eval scalars predicate other_request
eval-AgreeOn_example = eval-AgreeOn scalars predicate request other_request agree

eval-found_example : contains "steps" request ≡ true
eval-found_example =
    eval-found scalars predicate request (Scalar.bool true) "steps" evaluated names_steps

from_dict-to_dict_example : from_dict (to_dict predicate) ≡ ok predicate
from_dict-to_dict_example = from_dict-to_dict predicate valid

from_dict-is_valid_example : is_valid predicate ≡ true
from_dict-is_valid_example = from_dict-is_valid (to_dict predicate) predicate read
