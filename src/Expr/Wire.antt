-- ===== src/Expr/Wire.antt =====
-- The wire format of expressions (diflow/interface/expr.py): closed operator tables, and a round trip.
use diflow.Prelude.{
  ◌≡◌, refl, ◌∙◌, inl, inr, Bool, true, ◌&&◌, not, some, String, arith, ◌==◌, string_eq, Dict,
  lookup, contains, Outcome, ok, or_raise, value_error, >>=-eq-ok, require-eq-ok, or_raise-eq-ok,
  ok-injective, Bool-cases, both,
}
use diflow.Json.{Json, Fields, null, scalar, array, object, no_fields, field, get}
use diflow.Expr.{
  binops, unops, Expr, const, input_ref, binop, unaryop, to_dict, from_dict, from_kind, from_fields,
  as_key, as_scalar, as_str, make_binop, make_unaryop, kind_const, kind_input, kind_binop,
  kind_unaryop, Kind, required, expr_registry,
}

-- What the classes' `__post_init__` demand, at every part of an expression.
unfoldable pub is_valid : Expr → Bool
is_valid (const c) = true
is_valid (input_ref name) = not (name == "")
is_valid (binop op lhs rhs) = contains op binops && (is_valid lhs && is_valid rhs)
is_valid (unaryop op operand) = contains op unops && is_valid operand

-- An expression that a client can build is read back from its wire form as it was.
pub from_dict-to_dict : (e : Expr) → is_valid e ≡ true → from_dict (to_dict e) ≡ ok e
unfolding from_dict from_kind to_dict is_valid get lookup
from_dict-to_dict (const c) h = refl
from_dict-to_dict (input_ref name) h = rw h refl
from_dict-to_dict (binop op lhs rhs) h =
    let (known, parts) = both (contains op binops) (is_valid lhs && is_valid rhs) h in
    let (l, r) = both (is_valid lhs) (is_valid rhs) parts in
    rw (from_dict-to_dict lhs l, from_dict-to_dict rhs r, known) refl
from_dict-to_dict (unaryop op operand) h =
    let (known, inner) = both (contains op unops) (is_valid operand) h in
    rw (from_dict-to_dict operand inner, known) refl

make_binop-is_valid :
    (op : String) (l r e : Expr)
    → is_valid l ≡ true
    → is_valid r ≡ true
    → make_binop op l r ≡ ok e
    → is_valid e ≡ true
unfolding is_valid
make_binop-is_valid op l r e left right h =
    let (known, made) = require-eq-ok (contains op binops) value_error h in
    rw (← ok-injective made, known, left, right) refl

make_unaryop-is_valid :
    (op : String) (i e : Expr) → is_valid i ≡ true → make_unaryop op i ≡ ok e → is_valid e ≡ true
unfolding is_valid
make_unaryop-is_valid op i e inner h =
    let (known, made) = require-eq-ok (contains op unops) value_error h in
    rw (← ok-injective made, known, inner) refl

-- Every expression that was read for a field is valid.
abbrev AllValid : Dict String (Outcome Expr) → Type 0
AllValid read =
    (key : String) (o : Outcome Expr) (e : Expr)
    → lookup key read ≡ some o
    → o ≡ ok e
    → is_valid e ≡ true

from_kind-is_valid :
    (kind : Kind) (fs : Fields) (read : Dict String (Outcome Expr)) (e : Expr)
    → AllValid read
    → from_kind kind fs read ≡ ok e
    → is_valid e ≡ true
unfolding from_kind is_valid
from_kind-is_valid kind_const fs read e v h =
    let (value, _, h₁) = >>=-eq-ok (required "value" fs) _ h in
    let (c, _, made) = >>=-eq-ok (as_scalar value) _ h₁ in rw (← ok-injective made) refl
from_kind-is_valid kind_input fs read e v h =
    let (value, _, h₁) = >>=-eq-ok (required "input_name" fs) _ h in
    let (s, _, h₂) = >>=-eq-ok (as_str value) _ h₁ in
    let (named, made) = require-eq-ok (not (s == "")) value_error h₂ in
    rw (← ok-injective made) named
from_kind-is_valid kind_binop fs read e v h =
    let (op, _, h₁) = >>=-eq-ok (required "op" fs) _ h in
    let (lhs, f₂, h₂) = >>=-eq-ok (or_raise value_error (lookup "lhs" read)) _ h₁ in
    let (rhs, f₃, h₃) = >>=-eq-ok (or_raise value_error (lookup "rhs" read)) _ h₂ in
    let (l, left, h₄) = >>=-eq-ok lhs _ h₃ in
    let (r, right, h₅) = >>=-eq-ok rhs _ h₄ in
    let (s, _, made) = >>=-eq-ok (as_key op) _ h₅ in
    make_binop-is_valid s l r e (v "lhs" lhs l (or_raise-eq-ok value_error _ f₂) left)
      (v "rhs" rhs r (or_raise-eq-ok value_error _ f₃) right) made
from_kind-is_valid kind_unaryop fs read e v h =
    let (op, _, h₁) = >>=-eq-ok (required "op" fs) _ h in
    let (operand, f₂, h₂) = >>=-eq-ok (or_raise value_error (lookup "operand" read)) _ h₁ in
    let (i, inner, h₃) = >>=-eq-ok operand _ h₂ in
    let (s, _, made) = >>=-eq-ok (as_key op) _ h₃ in
    make_unaryop-is_valid s i e (v "operand" operand i (or_raise-eq-ok value_error _ f₂) inner) made

mutual
  unfolding from_dict lookup

  read_valid : (j : Json) (e : Expr) → from_dict j ≡ ok e → is_valid e ≡ true
  read_valid null e h = cc
  read_valid (scalar c) e h = cc
  read_valid (array xs) e h = cc
  read_valid (object fs) e h =
      let (tag, _, h₁) = >>=-eq-ok (required "kind" fs) _ h in
      let (name, _, h₂) = >>=-eq-ok (as_key tag) _ h₁ in
      let (kind, _, h₃) = >>=-eq-ok (or_raise value_error (lookup name expr_registry)) _ h₂ in
      from_kind-is_valid kind fs (from_fields fs) e (fields_valid fs) h₃

  fields_valid : (fs : Fields) → AllValid (from_fields fs)
  fields_valid no_fields key o e found h = cc
  fields_valid (field k v fs) key o e found h = elim (Bool-cases (k == key)) [
    | inl here ↦ let same : from_dict v ≡ o = ground arith in read_valid v e (same ∙ h)
    | inr later ↦ fields_valid fs key o e (ground arith) h
  ]

-- Whatever arrives over HTTP, only a valid expression is made of it: every operator in it is one of the
-- closed tables, and no input name is empty.
pub from_dict-is_valid : (j : Json) (e : Expr) → from_dict j ≡ ok e → is_valid e ≡ true
from_dict-is_valid = read_valid
