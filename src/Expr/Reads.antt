-- ===== src/Expr/Reads.antt =====
-- Which request inputs an evaluation reads (diflow/interface/expr.py).
use diflow.Prelude.{
  ◌≡◌, refl, ap, true, List, String, arith, string_eq, Dict, lookup, contains, ok, or_raise,
  key_error, member, member-append, beq_refl, >>=-eq-ok, or_raise-eq-ok,
}
use diflow.Expr.{Values, binops, unops, Expr, const, input_ref, binop, unaryop, free_inputs, eval}

module _ (V : Values) where
  -- The environments hold the same for each of the names.
  abbrev pub AgreeOn : List String → Dict String V.Value → Dict String V.Value → Type 0
  AgreeOn names env env' = (x : String) → member x names ≡ true → lookup x env ≡ lookup x env'

  -- An expression that is evaluated in two requests that hold the same for the inputs it names has the
  -- same outcome, a raised error included: no other input is read.
  pub eval-AgreeOn :
      (e : Expr) (env env' : Dict String V.Value)
      → AgreeOn (free_inputs e) env env'
      → eval V e env ≡ eval V e env'
  unfolding eval free_inputs member
  eval-AgreeOn (const c) env env' h = refl
  eval-AgreeOn (input_ref name) env env' h = ap (or_raise key_error) (h name (rw beq_refl refl))
  eval-AgreeOn (binop op lhs rhs) env env' h =
      let left =
        eval-AgreeOn lhs env env'
          λ x m. h x (ground (arith, member-append x (free_inputs lhs) (free_inputs rhs))) in
      let right =
        eval-AgreeOn rhs env env'
          λ x m. h x (ground (arith, member-append x (free_inputs lhs) (free_inputs rhs))) in
      rw (left, right) refl
  eval-AgreeOn (unaryop op operand) env env' h = rw (eval-AgreeOn operand env env' h) refl

  -- An evaluation that gives a value found every input that the expression names: the operators that
  -- combine Booleans skip none of their operands.
  pub eval-found :
      (e : Expr) (env : Dict String V.Value) (v : V.Value) (x : String)
      → eval V e env ≡ ok v
      → member x (free_inputs e) ≡ true
      → contains x env ≡ true
  unfolding eval free_inputs member
  eval-found (const c) env v x h m = cc
  eval-found (input_ref name) env v x h m =
      let found = or_raise-eq-ok key_error (lookup name env) h in
      ground (arith, string_eq.beq_iff name x, found)
  eval-found (binop op lhs rhs) env v x h m =
      let (f, _, h₁) = >>=-eq-ok (or_raise key_error (lookup op binops)) _ h in
      let (a, left, h₂) = >>=-eq-ok (eval V lhs env) _ h₁ in
      let (b, right, _) = >>=-eq-ok (eval V rhs env) _ h₂ in
      ground (
        arith,
        member-append x (free_inputs lhs) (free_inputs rhs),
        eval-found lhs env a x left,
        eval-found rhs env b x right,
      )
  eval-found (unaryop op operand) env v x h m =
      let (f, _, h₁) = >>=-eq-ok (or_raise key_error (lookup op unops)) _ h in
      let (a, inner, _) = >>=-eq-ok (eval V operand env) _ h₁ in eval-found operand env a x inner m
