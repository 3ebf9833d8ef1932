-- ===== src/Expand/Checks.antt =====
-- The checks of an expansion (diflow/interface/workflow_expand.py), which all raise a ValueError.
use diflow.Prelude.{
  ℕ, zero, suc, Bool, true, false, not, ◌&&◌, ◌||◌, Option, none, some, List, [], ◌∷◌, ◌++◌, map,
  String, ◌==◌, string_eq, if◌then◌else◌, starts_with, every, length, nat_beq, select, Dict, keys,
  lookup, insert, contains, member, add_element, Outcome, ok, ◌>>=◌, ◌>>◌, require, or_raise,
  key_error, value_error,
}
use diflow.Workflow.{NodeIo, WorkflowNode}
use diflow.Dependency.{Sets, from_request, build_successors}
use diflow.Expr.{Values}
use diflow.Region.{Region, placeholder_names, Workflow}
use diflow.Expand.Passes.{expand_passes}

-- `_all_placeholder_names`
unfoldable pub all_placeholder_names : List Region → List String
unfolding placeholder_names
all_placeholder_names [] = []
all_placeholder_names (r ∷ regions) = placeholder_names r ++ all_placeholder_names regions

-- No name twice.
unfoldable pub no_duplicates : List String → Bool
no_duplicates [] = true
no_duplicates (name ∷ names) = not (member name names) && no_duplicates names

-- `produced`, which keeps the name of the node that makes a value.
unfoldable pub record_outputs :
    String → Dict String NodeIo → Dict String String → Dict String String
record_outputs name [] produced = produced
record_outputs name ((key, io) ∷ outputs) produced =
    record_outputs name outputs (insert io.name name produced)

unfoldable pub all_produced : List WorkflowNode → Dict String String → Dict String String
unfolding record_outputs
all_produced [] produced = produced
all_produced (n ∷ nodes) produced = all_produced nodes (record_outputs n.name n.outputs produced)

-- An input refers to no placeholder, and to a value of the request or to one that a node makes.
abbrev pub is_resolved : List String → List String → Dict String String → NodeIo → Bool
is_resolved placeholders resolvable produced io =
    not (member io.name placeholders)
    && (if from_request io then member io.name resolvable else contains io.name produced)

abbrev pub inputs_resolved : List String → List String → Dict String String → WorkflowNode → Bool
inputs_resolved placeholders resolvable produced n =
    every (λ e. is_resolved placeholders resolvable produced e.1) n.inputs

-- The maker of an input, unless it is the consumer itself.
abbrev pub add_maker : Option String → String → List String → List String
add_maker none consumer deps = deps
add_maker (some producer) consumer deps =
    if producer == consumer then deps else add_element producer deps

-- The entry of a node in `prerequisites`: the other nodes that make an input of it.
unfoldable pub add_prerequisites :
    Dict String String → String → Dict String NodeIo → List String → List String
add_prerequisites produced consumer [] deps = deps
add_prerequisites produced consumer ((key, io) ∷ inputs) deps =
    add_prerequisites produced consumer inputs
      (if from_request io then deps else add_maker (lookup io.name produced) consumer deps)

unfoldable pub graph_of : Dict String String → List WorkflowNode → Sets
unfolding add_prerequisites
graph_of produced [] = []
graph_of produced (n ∷ nodes) =
    (n.name, add_prerequisites produced n.name n.inputs []) ∷ graph_of produced nodes

abbrev pub discard : String → List String → List String
discard name = select (λ x. not (x == name))

-- The loop over the dependents of a settled node.
-- A dependent whose last prerequisite was settled is appended.
abbrev pub grown : String → List String → List String → List String
grown d [] ready = d ∷ ready
grown d (x ∷ xs) ready = ready

unfoldable pub settle : String → List String → List String → Sets → Outcome (List String × Sets)
settle name [] ready remaining = ok (ready, remaining)
settle name (d ∷ dependents) ready remaining = do
  deps ← or_raise key_error (lookup d remaining)
  let left = discard name deps
  settle name dependents (grown d left ready) (insert d left remaining)

-- The `while ready` loop, with the list `ready` from its end, where it grows and shrinks. The nodes
-- that were settled are kept, last one first; the source keeps their number.
unfoldable pub settle_all : ℕ → Sets → List String → Sets → List String → Outcome (List String)
unfolding settle
settle_all zero dependents ready remaining settled = ok settled
settle_all (suc fuel) dependents [] remaining settled = ok settled
settle_all (suc fuel) dependents (name ∷ ready) remaining settled = do
  ds ← or_raise key_error (lookup name dependents)
  (ready', remaining') ← settle name ds ready remaining
  settle_all fuel dependents ready' remaining' (name ∷ settled)

abbrev pub is_free : String × List String → Bool
is_free (name, []) = true
is_free (name, x ∷ xs) = false

abbrev pub reversed : List String → List String → List String
reversed [] out = out
reversed (x ∷ xs) out = reversed xs (x ∷ out)

-- `_check_acyclic`, which fills `dependents` as `build_successors` does. A node is settled once, so as many rounds as there are nodes are enough.
unfoldable pub check_acyclic : Sets → Outcome (List String)
unfolding build_successors settle_all
check_acyclic prerequisites = do
  dependents ← build_successors (keys prerequisites) prerequisites
  settled ←
      settle_all (length prerequisites) dependents
        (reversed (keys (select is_free prerequisites)) []) prerequisites []
  require (nat_beq (length settled) (length prerequisites)) value_error
  ok settled

-- `_check_invariants`, with the names of the request's inputs and of the injected values.
unfoldable pub check_invariants : Workflow → Workflow → List String → Outcome (Unit {0})
unfolding all_placeholder_names no_duplicates all_produced graph_of check_acyclic
check_invariants expanded source request_values = do
  let nodes = expanded.workflow_nodes
  require (no_duplicates (map (λ n. n.name) nodes)) value_error
  require (every (λ n. starts_with n.name n.op.id) nodes) value_error
  let produced = all_produced nodes []
  let placeholders = all_placeholder_names source.regions
  let resolvable = request_values ++ keys expanded.outputs
  require (every (inputs_resolved placeholders resolvable produced) nodes) value_error
  require (every (λ name. not (member name placeholders)) (keys produced)) value_error
  require
      (every (λ name. contains name produced || member name request_values) (keys expanded.outputs))
      value_error
  settled ← check_acyclic (graph_of produced nodes)
  ok tt

module _ (V : Values) (uuid : ℕ → String) where
  -- `expand_workflow_pure`
  unfoldable pub expand_workflow_pure :
      Workflow → Dict String V.Value → Outcome (Workflow × Dict String V.Value)
  unfolding expand_passes check_invariants
  expand_workflow_pure w inputs = do
    (expanded, injected) ← expand_passes V uuid w inputs
    check_invariants expanded w (keys inputs ++ keys injected)
    ok (expanded, injected)
