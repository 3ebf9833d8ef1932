-- ===== src/Expr.antt =====
-- Static expressions over request inputs (diflow/interface/expr.py): their operator tables, their
-- construction, evaluation and wire format.
pub mod Examples
pub mod Reads
pub mod Wire
use diflow.Prelude.{
  ℕ, Bool, true, false, not, ◌&&◌, ◌||◌, Option, none, some, List, [], ◌∷◌, ◌++◌, String, ◌==◌,
  string_eq, if◌then◌else◌, Dict, lookup, contains, Outcome, ok, raise, ◌>>=◌, ◌>>◌, require,
  or_raise, key_error, value_error, type_error,
}
use diflow.Json.{ℤ, Scalar, Json, Fields, null, scalar, array, object, no_fields, field, get, text}
use diflow.Workflow.{NodeIo, SourceType, input, node}

-- The operators of Python that `_BINOPS` and `_UNOPS` name as they are.
pub data Arithmetic : Type 0 where
  op_add op_sub op_mul op_truediv op_floordiv op_mod op_min op_max : Arithmetic
  op_gt op_ge op_lt op_le op_eq op_ne : Arithmetic

pub data Conversion : Type 0 where
  to_int to_float op_neg : Conversion

-- What a request holds for its inputs, with Python's operators on such values; `bool` is `truth`.
pub record Values : Type 1 where
  pub Value : Type 0
  pub of_scalar : Scalar → Value
  pub truth : Value → Bool
  pub arithmetic : Arithmetic → Value → Value → Outcome Value
  pub convert : Conversion → Value → Outcome Value
  -- the integer a value is, if its type is `int` and not `bool`
  pub as_int : Value → Option ℤ

-- The entries of the tables: an operator of Python, or a lambda of the source.
pub data BinOperator : Type 0 where
  arith_op : Arithmetic → BinOperator
  bool_and bool_or : BinOperator

pub data UnOperator : Type 0 where
  convert_op : Conversion → UnOperator
  op_bool op_not : UnOperator

-- `_BINOPS`
abbrev pub binops : Dict String BinOperator
binops =
    ("+", arith_op op_add)
    ∷ ("-", arith_op op_sub)
    ∷ ("*", arith_op op_mul)
    ∷ ("/", arith_op op_truediv)
    ∷ ("//", arith_op op_floordiv)
    ∷ ("%", arith_op op_mod)
    ∷ ("min", arith_op op_min)
    ∷ ("max", arith_op op_max)
    ∷ (">", arith_op op_gt)
    ∷ (">=", arith_op op_ge)
    ∷ ("<", arith_op op_lt)
    ∷ ("<=", arith_op op_le)
    ∷ ("==", arith_op op_eq)
    ∷ ("!=", arith_op op_ne)
    ∷ ("and", bool_and)
    ∷ ("or", bool_or)
    ∷ []

-- `_UNOPS`
abbrev pub unops : Dict String UnOperator
unops =
    ("int", convert_op to_int)
    ∷ ("float", convert_op to_float)
    ∷ ("bool", op_bool)
    ∷ ("not", op_not)
    ∷ ("neg", convert_op op_neg)
    ∷ []

-- `Const`, `InputRef`, `BinOp` and `UnaryOp`
pub data Expr : Type 0 where
  const : Scalar → Expr
  input_ref : String → Expr
  binop : String → Expr → Expr → Expr
  unaryop : String → Expr → Expr

-- `__post_init__` of the classes.
abbrev pub make_input_ref : String → Outcome Expr
make_input_ref name = require (not (name == "")) value_error >> ok (input_ref name)

abbrev pub make_binop : String → Expr → Expr → Outcome Expr
make_binop op lhs rhs = require (contains op binops) value_error >> ok (binop op lhs rhs)

abbrev pub make_unaryop : String → Expr → Outcome Expr
make_unaryop op operand = require (contains op unops) value_error >> ok (unaryop op operand)

-- `free_inputs`
unfoldable pub free_inputs : Expr → List String
free_inputs (const c) = []
free_inputs (input_ref name) = name ∷ []
free_inputs (binop op lhs rhs) = free_inputs lhs ++ free_inputs rhs
free_inputs (unaryop op operand) = free_inputs operand

module _ (V : Values) where
  abbrev pub apply_binop : BinOperator → V.Value → V.Value → Outcome V.Value
  apply_binop (arith_op f) a b = V.arithmetic f a b
  apply_binop bool_and a b = ok (V.of_scalar (Scalar.bool (V.truth a && V.truth b)))
  apply_binop bool_or a b = ok (V.of_scalar (Scalar.bool (V.truth a || V.truth b)))

  abbrev pub apply_unop : UnOperator → V.Value → Outcome V.Value
  apply_unop (convert_op f) a = V.convert f a
  apply_unop op_bool a = ok (V.of_scalar (Scalar.bool (V.truth a)))
  apply_unop op_not a = ok (V.of_scalar (Scalar.bool (not (V.truth a))))

  -- `eval`
  unfoldable pub eval : Expr → Dict String V.Value → Outcome V.Value
  eval (const c) env = ok (V.of_scalar c)
  eval (input_ref name) env = or_raise key_error (lookup name env)
  eval (binop op lhs rhs) env = do
    f ← or_raise key_error (lookup op binops)
    a ← eval lhs env
    b ← eval rhs env
    apply_binop f a b
  eval (unaryop op operand) env = do
    f ← or_raise key_error (lookup op unops)
    a ← eval operand env
    apply_unop f a

-- `to_dict`
unfoldable pub to_dict : Expr → Json
to_dict (const c) = object (field "kind" (text "const") (field "value" (scalar c) no_fields))
to_dict (input_ref name) =
    object (field "kind" (text "input") (field "input_name" (text name) no_fields))
to_dict (binop op lhs rhs) = object (
    field "kind" (text "binop")
      (field "op" (text op) (field "lhs" (to_dict lhs) (field "rhs" (to_dict rhs) no_fields))))
to_dict (unaryop op operand) = object (
    field "kind" (text "unaryop")
      (field "op" (text op) (field "operand" (to_dict operand) no_fields)))

-- A key looked up in a dictionary of Python: a str that may be present, another scalar or None, which
-- is not, or a list or dict, which cannot be hashed.
abbrev pub as_key : Json → Outcome String
as_key null = raise value_error
as_key (scalar (Scalar.str s)) = ok s
as_key (scalar (Scalar.int n)) = raise value_error
as_key (scalar (Scalar.float x)) = raise value_error
as_key (scalar (Scalar.bool b)) = raise value_error
as_key (array xs) = raise type_error
as_key (object fs) = raise type_error

-- `isinstance(value, _CONST_TYPES)`
abbrev pub as_scalar : Json → Outcome Scalar
as_scalar null = raise value_error
as_scalar (scalar c) = ok c
as_scalar (array xs) = raise value_error
as_scalar (object fs) = raise value_error

-- `isinstance(input_name, str)`
abbrev pub as_str : Json → Outcome String
as_str null = raise value_error
as_str (scalar (Scalar.str s)) = ok s
as_str (scalar (Scalar.int n)) = raise value_error
as_str (scalar (Scalar.float x)) = raise value_error
as_str (scalar (Scalar.bool b)) = raise value_error
as_str (array xs) = raise value_error
as_str (object fs) = raise value_error

-- The classes of `_EXPR_REGISTRY`.
pub data Kind : Type 0 where
  kind_const kind_input kind_binop kind_unaryop : Kind

abbrev pub expr_registry : Dict String Kind
expr_registry =
    ("const", kind_const)
    ∷ ("input", kind_input)
    ∷ ("binop", kind_binop)
    ∷ ("unaryop", kind_unaryop)
    ∷ []

-- The value of a field that is present.
abbrev pub required : String → Fields → Outcome Json
required key fs = or_raise value_error (get key fs)

-- `_from_dict` of the class, where the fields that hold an expression were read, and the outcome of
-- the reading counts only for those that the class reads.
unfoldable pub from_kind : Kind → Fields → Dict String (Outcome Expr) → Outcome Expr
from_kind kind_const fs read = do value ← required "value" fs; c ← as_scalar value; ok (const c)
from_kind kind_input fs read = do name ← required "input_name" fs; s ← as_str name; make_input_ref s
from_kind kind_binop fs read = do
  op ← required "op" fs
  lhs ← or_raise value_error (lookup "lhs" read)
  rhs ← or_raise value_error (lookup "rhs" read)
  l ← lhs
  r ← rhs
  s ← as_key op
  make_binop s l r
from_kind kind_unaryop fs read = do
  op ← required "op" fs
  operand ← or_raise value_error (lookup "operand" read)
  e ← operand
  s ← as_key op
  make_unaryop s e

-- `Expr.from_dict`: the class is chosen by the field `kind`.
unfoldable mutual
  unfolding from_kind

  pub from_dict : Json → Outcome Expr
  from_dict null = raise value_error
  from_dict (scalar c) = raise value_error
  from_dict (array xs) = raise value_error
  from_dict (object fs) = do
    tag ← required "kind" fs
    name ← as_key tag
    kind ← or_raise value_error (lookup name expr_registry)
    from_kind kind fs (from_fields fs)

  from_fields : Fields → Dict String (Outcome Expr)
  from_fields no_fields = []
  from_fields (field key v fs) = (key, from_dict v) ∷ from_fields fs

-- What `to_expr` is given: an expression, a value of `_CONST_TYPES`, a NodeIO, or something else.
pub data Operand : Type 0 where
  an_expr : Expr → Operand
  a_value : Scalar → Operand
  an_io : NodeIo → Operand
  another : Operand

-- `to_expr`
pub to_expr : Operand → Outcome Expr
to_expr (an_expr e) = ok e
to_expr (a_value c) = ok (const c)
to_expr (an_io io) = elim io.source_type [
  | none ↦ raise value_error
  | some t ↦ elim t [ input ↦ make_input_ref io.name | node ↦ raise value_error ]
]
to_expr another = raise value_error

-- `BinOp(op, lhs, rhs)` as it is called with operands that are no expressions yet.
pub binop_of : String → Operand → Operand → Outcome Expr
unfolding to_expr
binop_of op lhs rhs = do
  require (contains op binops) value_error
  l ← to_expr lhs
  r ← to_expr rhs
  ok (binop op l r)

pub unaryop_of : String → Operand → Outcome Expr
unfolding to_expr
unaryop_of op operand = do
  require (contains op unops) value_error
  e ← to_expr operand
  ok (unaryop op e)

-- The overloads of `SymbolicOperand`.
pub data Overload : Type 0 where
  o_gt o_ge o_lt o_le o_add o_radd o_sub o_rsub o_mul o_rmul : Overload
  o_truediv o_rtruediv o_floordiv o_rfloordiv o_mod : Overload

pub overload : Overload → Operand → Operand → Outcome Expr
unfolding binop_of
overload o_gt self other = binop_of ">" self other
overload o_ge self other = binop_of ">=" self other
overload o_lt self other = binop_of "<" self other
overload o_le self other = binop_of "<=" self other
overload o_add self other = binop_of "+" self other
overload o_radd self other = binop_of "+" other self
overload o_sub self other = binop_of "-" self other
overload o_rsub self other = binop_of "-" other self
overload o_mul self other = binop_of "*" self other
overload o_rmul self other = binop_of "*" other self
overload o_truediv self other = binop_of "/" self other
overload o_rtruediv self other = binop_of "/" other self
overload o_floordiv self other = binop_of "//" self other
overload o_rfloordiv self other = binop_of "//" other self
overload o_mod self other = binop_of "%" self other

-- `__neg__`
pub negated : Operand → Outcome Expr
unfolding unaryop_of
negated self = unaryop_of "neg" self
