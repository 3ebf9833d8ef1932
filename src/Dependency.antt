-- ===== src/Dependency.antt =====
-- Graph analyses of a workflow (diflow/backend/dependency.py). Nodes are told apart by their names,
-- which `_check_invariants` makes sure are unique in an expanded workflow.
pub mod Edges
pub mod Producers
use diflow.Prelude.{
  ℕ, suc, ◌+◌, Bool, true, false, not, ◌&&◌, ◌||◌, Option, none, some, List, [], ◌∷◌, map, String,
  ◌==◌, string_eq, if◌then◌else◌, Dict, lookup, insert, Outcome, ok, ◌>>=◌, or_raise, key_error,
  add_element, member,
}
use diflow.Workflow.{NodeIo, SourceType, input, node, WorkflowNode}

abbrev pub Sets : Type 0
Sets = Dict String (List String)

-- `d.get(k, set())`
abbrev pub get_set : String → Sets → List String
get_set k d = elim (lookup k d) [ none ↦ [] | some s ↦ s ]

-- `io.source_type == SourceType.INPUT`
abbrev pub from_request : NodeIo → Bool
from_request io = elim io.source_type [
  | none ↦ false
  | some t ↦ elim t [ input ↦ true | node ↦ false ]
]

-- The loop over another node's outputs.
unfoldable pub add_if_produces :
    String → WorkflowNode → Dict String NodeIo → List String → List String
add_if_produces wanted other [] deps = deps
add_if_produces wanted other ((key, io) ∷ outputs) deps =
    add_if_produces wanted other outputs
      (if io.name == wanted then add_element other.name deps else deps)

-- The loop over the other nodes.
unfoldable pub add_producers : String → WorkflowNode → List WorkflowNode → List String → List String
unfolding add_if_produces
add_producers wanted consumer [] deps = deps
add_producers wanted consumer (other ∷ others) deps =
    add_producers wanted consumer others (
      if other.name == consumer.name then deps else add_if_produces wanted other other.outputs deps)

-- The loop over a node's inputs.
unfoldable pub add_inputs :
    Bool → List WorkflowNode → WorkflowNode → Dict String NodeIo → List String → List String
unfolding add_producers
add_inputs lazy_only nodes consumer [] deps = deps
add_inputs lazy_only nodes consumer ((key, io) ∷ inputs) deps =
    add_inputs lazy_only nodes consumer inputs (
      if from_request io || (lazy_only && not io.lazy)
      then deps
      else add_producers io.name consumer nodes deps)

-- `get_node_dependencies`: a round of the outer loop adds to the entry of its own node only.
unfoldable pub get_node_dependencies : Bool → List WorkflowNode → Sets
unfolding add_inputs
get_node_dependencies lazy_only nodes =
    map (λ n. (n.name, add_inputs lazy_only nodes n n.inputs [])) nodes

-- `build_successors`: the loops over a node's prerequisites, and over the nodes.
unfoldable pub add_successor : String → List String → Sets → Outcome Sets
add_successor name [] successors = ok successors
add_successor name (dep ∷ deps) successors = do
  old ← or_raise key_error (lookup dep successors)
  add_successor name deps (insert dep (add_element name old) successors)

unfoldable pub add_successors : Sets → Sets → Outcome Sets
unfolding add_successor
add_successors [] successors = ok successors
add_successors ((name, deps) ∷ prerequisites) successors = do
  successors' ← add_successor name deps successors
  add_successors prerequisites successors'

abbrev pub no_successors : String → String × List String
no_successors name = (name, [])

unfoldable pub build_successors : List String → Sets → Outcome Sets
unfolding add_successors
build_successors names prerequisites = add_successors prerequisites (map no_successors names)

-- `build_tensor_reference_count`: the loops over a node's inputs, and over the nodes.
unfoldable pub count_inputs : Dict String NodeIo → Dict String ℕ → Dict String ℕ
count_inputs [] counts = counts
count_inputs ((key, io) ∷ inputs) counts = count_inputs inputs (
    if from_request io
    then counts
    else insert io.name (elim (lookup io.name counts) [ none ↦ 1 | some n ↦ n + 1 ]) counts)

unfoldable pub count_nodes : List WorkflowNode → Dict String ℕ → Dict String ℕ
unfolding count_inputs
count_nodes [] counts = counts
count_nodes (n ∷ nodes) counts = count_nodes nodes (count_inputs n.inputs counts)

unfoldable pub build_tensor_reference_count : List WorkflowNode → Dict String ℕ
unfolding count_nodes
build_tensor_reference_count nodes = count_nodes nodes []
