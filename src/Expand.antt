-- ===== src/Expand.antt =====
-- The expansion of a workflow for one request (diflow/interface/workflow_expand.py), with the nodes'
-- construction (diflow/interface/workflow_node.py). The texts of `uuid4` are a parameter, numbered in
-- the order of the calls.
pub mod Passes
pub mod Checks
pub mod Count
pub mod Ordered
pub mod Settling
pub mod Sorting
pub mod Ranked
pub mod Pending
pub mod Accepts
pub mod Sound
pub mod Examples
pub mod OrderExamples
use diflow.Prelude.{
  ℕ, zero, suc, Bool, true, false, not, ◌&&◌, ◌||◌, Option, none, some, List, [], ◌∷◌, ◌++◌, map,
  String, ◌==◌, string_eq, if◌then◌else◌, append, Dict, keys, lookup, insert, contains, member,
  subset, Outcome, ok, raise, ◌>>=◌, ◌>>◌, require, or_raise, key_error, value_error,
}
use diflow.Json.{ℤ, pos, negsuc, Scalar}
use diflow.Workflow.{NodeIo, Operator, SourceType, input, node, WorkflowNode}
use diflow.Expr.{Values, Expr, eval}
use diflow.Region.{
  Loop, Cond, Region, Program, loop_region, cond_region, cond_else_region, no_ops, node_op,
  region_op, iv_name,
}

-- A scope's chain of mappings, innermost first.
abbrev pub Scope : Type 0
Scope = List (Dict String NodeIo)

-- `Scope.lookup`
unfoldable pub scope_lookup : String → Scope → Option NodeIo
scope_lookup name [] = none
scope_lookup name (mapping ∷ parents) = elim (lookup name mapping) [
  | some io ↦ some io
  | none ↦ scope_lookup name parents
]

-- `_resolve`
unfoldable pub resolve : Scope → Dict String NodeIo → NodeIo → NodeIo
unfolding scope_lookup
resolve scope subst io = elim (scope_lookup io.name scope) [
  | some found ↦ found
  | none ↦ elim (lookup io.name subst) [ some found ↦ found | none ↦ io ]
]

abbrev pub resolve_all : Scope → Dict String NodeIo → Dict String NodeIo → Dict String NodeIo
resolve_all scope subst = map (λ e. (e.0, resolve scope subst e.1))

-- The outputs that `WorkflowNode.__init__` derives from a specification.
abbrev output_of : String → String × NodeIo → String × NodeIo
output_of name (key, io) = (
  key,
  record {
    name = append name (append ":" key);
    data_type = io.data_type;
    source_type = some node;
    source_node = some name;
    size = io.size;
    lazy = io.lazy;
  },
)

unfoldable pub derive_outputs : String → Operator → String → Outcome (Dict String NodeIo)
derive_outputs name op mode = elim op.execution_modes [
  | [] ↦ ok (map (output_of name) op.op_outputs)
  | m ∷ modes ↦ do
    outputs ← or_raise value_error (lookup mode (m ∷ modes))
    ok (map (output_of name) outputs)
]

abbrev same_keys : Dict String NodeIo → Dict String NodeIo → Bool
same_keys a b = subset (keys a) (keys b) && subset (keys b) (keys a)

-- What the expansion of one request keeps: the results that were substituted, the values to inject,
-- the nodes emitted so far, and how many names were minted.
pub record Expansion (V : Values) : Type 0 where
  pub subst : Dict String NodeIo
  pub injected : Dict String V.Value
  pub emitted : List WorkflowNode
  pub minted : ℕ

-- `scope.mapping[source_io.name] = clone.get_outputs()[key]`, for each output.
unfoldable pub bind_outputs :
    Dict String NodeIo → Dict String NodeIo → Dict String NodeIo → Outcome (Dict String NodeIo)
bind_outputs [] made mapping = ok mapping
bind_outputs ((key, io) ∷ outputs) made mapping = do
  new ← or_raise key_error (lookup key made)
  bind_outputs outputs made (insert io.name new mapping)

-- `subst[placeholder.name] = current[key]`, and the same loop over the carry placeholders.
unfoldable pub bind_results :
    Dict String NodeIo → Dict String NodeIo → Dict String NodeIo → Outcome (Dict String NodeIo)
bind_results [] values target = ok target
bind_results ((key, placeholder) ∷ results) values target = do
  io ← or_raise key_error (lookup key values)
  bind_results results values (insert placeholder.name io target)

-- `(branch_results or {})`
abbrev pub or_empty : Option (Dict String NodeIo) → Dict String NodeIo
or_empty none = []
or_empty (some results) = results

-- The results of a branch: each is resolved with the substitutions of the ones before it.
unfoldable pub bind_branch :
    Dict String NodeIo
    → Dict String NodeIo
    → Scope
    → Dict String NodeIo
    → Outcome (Dict String NodeIo)
unfolding resolve
bind_branch [] branch scope subst = ok subst
bind_branch ((key, placeholder) ∷ results) branch scope subst = do
  io ← or_raise key_error (lookup key branch)
  bind_branch results branch scope (insert placeholder.name (resolve scope subst io) subst)

-- The rounds of a loop: `step` runs one of them on the carried values and the state.
unfoldable pub rounds {ℓ} : {S : Type ℓ} → (ℕ → S → Outcome S) → ℕ → ℕ → S → Outcome S
rounds step zero i s = ok s
rounds step (suc left) i s = do s' ← step i s; rounds step left (suc i) s'

-- The trip count: an int, no bool, and not negative.
abbrev pub trips : Option ℤ → Outcome ℕ
trips none = raise value_error
trips (some (pos n)) = ok n
trips (some (negsuc n)) = raise value_error

module _ (V : Values) (uuid : ℕ → String) where
  -- `_clone`
  unfoldable pub clone : WorkflowNode → Scope → Expansion V → Outcome WorkflowNode
  unfolding derive_outputs
  clone src scope s = do
    let name = append src.op.id (append "_" (uuid s.minted))
    outputs ← derive_outputs name src.op src.mode
    require (same_keys outputs src.outputs) value_error
    ok (record {
      name = name;
      op = src.op;
      mode = src.mode;
      inputs = resolve_all scope s.subst src.inputs;
      outputs = outputs;
    })

  -- One operation of a body that is a node: the clone is emitted, and its outputs are bound.
  unfoldable pub expand_node :
      WorkflowNode
      → Dict String NodeIo
      → Scope
      → Expansion V
      → Outcome (Dict String NodeIo × Expansion V)
  unfolding clone bind_outputs
  expand_node n mapping parents s = do
    copy ← clone n (mapping ∷ parents) s
    mapping' ← bind_outputs n.outputs copy.outputs mapping
    ok (mapping', record s { emitted = s.emitted ++ (copy ∷ []); minted = suc s.minted })

  -- What a round starts from: the induction variable is a request input of its own, and the
  -- placeholders stand for the carried values.
  unfoldable pub enter_round :
      Loop → ℕ → Dict String NodeIo → Expansion V → Outcome (Dict String NodeIo × Expansion V)
  unfolding bind_results
  enter_round loop i current s = do
    let name = iv_name loop i
    let counter : NodeIo = record {
      name = name;
      data_type = loop.induction_var.data_type;
      source_type = some input;
      source_node = none;
      size = none;
      lazy = false;
    }
    mapping ← bind_results loop.carry_placeholders current ((loop.induction_var.name, counter) ∷ [])
    ok (mapping, record s { injected = insert name (V.of_scalar (Scalar.int (pos i))) s.injected })

  abbrev env_of : Loop → ℕ → Dict String V.Value → Dict String V.Value
  env_of loop i env = (loop.id, V.of_scalar (Scalar.int (pos i))) ∷ env

  abbrev bind_state : Dict String NodeIo → Dict String NodeIo → Expansion V → Outcome (Expansion V)
  unfolding bind_results
  bind_state results values s = do
    subst ← bind_results results values s.subst
    ok (record s { subst = subst })

  abbrev bind_taken :
      Dict String NodeIo → Dict String NodeIo → Scope → Expansion V → Outcome (Expansion V)
  unfolding bind_branch
  bind_taken results branch scope s = do
    subst ← bind_branch results branch scope s.subst
    ok (record s { subst = subst })

  unfoldable mutual
    unfolding expand_node enter_round bind_results bind_branch rounds

    -- `_expand_region`: `_expand_loop` and `_expand_cond`.
    pub expand_region :
        Region
        → Dict String V.Value
        → Dict String V.Value
        → Scope
        → Expansion V
        → Outcome (Expansion V)
    expand_region (loop_region loop body) inputs env scope s = do
      value ← eval V loop.trip_count (env ++ inputs)
      n ← trips (V.as_int value)
      (current, s') ←
          rounds
            (λ (i : ℕ) (c : Dict String NodeIo × Expansion V). do
              (mapping, s₁) ← enter_round loop i c.0 c.1
              (mapping', s₂) ← expand_program body inputs (env_of loop i env) mapping scope s₁
              ok (resolve_all (mapping' ∷ scope) s₂.subst loop.carry_out, s₂))
            n 0 (resolve_all scope s.subst loop.carry_init, s)
      bind_state loop.results current s'
    expand_region (cond_region cond then_body) inputs env scope s = do
      value ← eval V cond.predicate (env ++ inputs)
      elim (V.truth value) [
        | true ↦ do
          (mapping, s') ← expand_program then_body inputs env [] scope s
          bind_taken cond.results cond.then_results (mapping ∷ scope) s'
        | false ↦ ok s
      ]
    expand_region (cond_else_region cond then_body else_body) inputs env scope s = do
      value ← eval V cond.predicate (env ++ inputs)
      elim (V.truth value) [
        | true ↦ do
          (mapping, s') ← expand_program then_body inputs env [] scope s
          bind_taken cond.results cond.then_results (mapping ∷ scope) s'
        | false ↦ do
          (mapping, s') ← expand_program else_body inputs env [] scope s
          bind_taken cond.results (or_empty cond.else_results) (mapping ∷ scope) s'
      ]

    -- `_expand_program`: the mapping of its scope, with the outputs of its nodes, is returned.
    pub expand_program :
        Program
        → Dict String V.Value
        → Dict String V.Value
        → Dict String NodeIo
        → Scope
        → Expansion V
        → Outcome (Dict String NodeIo × Expansion V)
    expand_program no_ops inputs env mapping parents s = ok (mapping, s)
    expand_program (node_op n ops) inputs env mapping parents s = do
      (mapping', s') ← expand_node n mapping parents s
      expand_program ops inputs env mapping' parents s'
    expand_program (region_op r ops) inputs env mapping parents s = do
      s' ← expand_region r inputs env (mapping ∷ parents) s
      expand_program ops inputs env mapping parents s'
