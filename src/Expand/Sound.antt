-- ===== src/Expand/Sound.antt =====
-- What a workflow that was expanded has (diflow/interface/workflow_expand.py).
use mathlib.Core.Path.{subst}
use diflow.Prelude.{
  ℕ, ◌≡◌, refl, true, false, not, none, List, [], ◌∷◌, ◌++◌, map, String, arith, string_eq,
  starts_with, every, Dict, keys, lookup, IsDict, member, Distinct, ok, value_error, >>=-eq-ok,
  require-eq-ok, ok-injective, both,
}
use diflow.Workflow.{WorkflowNode}
use diflow.Dependency.Edges.{IsRanked}
use diflow.Dependency.Producers.{node_names}
use diflow.Expr.{Values}
use diflow.Region.{Workflow}
use diflow.Expand.Passes.{expand_passes}
use diflow.Expand.Checks.{
  no_duplicates, all_placeholder_names, all_produced, inputs_resolved, graph_of, check_acyclic,
  check_invariants, expand_workflow_pure,
}
use diflow.Expand.Ranked.{rank_in, check_acyclic-IsRanked}

no_duplicates-Distinct : (names : List String) → no_duplicates names ≡ true → Distinct names
unfolding no_duplicates
no_duplicates-Distinct [] h = tt
no_duplicates-Distinct (name ∷ names) h =
    let (fresh, rest) = both (not (member name names)) (no_duplicates names) h in
    (ground arith, no_duplicates-Distinct names rest)

graph_absent :
    (produced : Dict String String) (nodes : List WorkflowNode) (name : String)
    → member name (node_names nodes) ≡ false
    → lookup name (graph_of produced nodes) ≡ none
unfolding graph_of lookup member
graph_absent produced [] name h = refl
graph_absent produced (n ∷ nodes) name h = ground (arith, graph_absent produced nodes name)

graph_of-IsDict :
    (produced : Dict String String) (nodes : List WorkflowNode)
    → Distinct (node_names nodes)
    → IsDict (graph_of produced nodes)
unfolding graph_of
graph_of-IsDict produced [] d = tt
graph_of-IsDict produced (n ∷ nodes) d =
    (graph_absent produced nodes n.name d.0, graph_of-IsDict produced nodes d.1)

-- The graph that the checks look at: from each node to the makers of its inputs.
abbrev pub made_by : List WorkflowNode → Dict String (List String)
made_by nodes = graph_of (all_produced nodes []) nodes

-- What the executor needs of an expanded workflow: nodes of different names without a cycle between
-- them, whose inputs are values of the request or registered outputs, or made by a node, and no
-- placeholders of a region.
pub record IsRunnable (source expanded : Workflow) (request_values : List String) : Type 0 where
  pub distinct : Distinct (node_names expanded.workflow_nodes)
  pub resolved :
      every
        (inputs_resolved
          (all_placeholder_names source.regions)
          (request_values ++ keys expanded.outputs)
          (all_produced expanded.workflow_nodes []))
        expanded.workflow_nodes
      ≡ true
  pub rank : String → ℕ
  pub ranked : IsRanked (made_by expanded.workflow_nodes) rank

check_invariants-IsRunnable :
    (expanded source : Workflow) (request_values : List String)
    → check_invariants expanded source request_values ≡ ok tt
    → IsRunnable source expanded request_values
unfolding check_invariants
check_invariants-IsRunnable expanded source request_values h =
    let nodes = expanded.workflow_nodes in
    let (names, h₁) = require-eq-ok (no_duplicates (map (λ n. n.name) nodes)) value_error h in
    let (_, h₂) = require-eq-ok (every (λ n. starts_with n.name n.op.id) nodes) value_error h₁ in
    let (resolved, h₃) = require-eq-ok (every (inputs_resolved _ _ _) nodes) value_error h₂ in
    let (_, h₄) = require-eq-ok (every _ (keys (all_produced nodes []))) value_error h₃ in
    let (_, h₅) = require-eq-ok (every _ (keys expanded.outputs)) value_error h₄ in
    let (settled, sorted, _) = >>=-eq-ok (check_acyclic (made_by nodes)) _ h₅ in
    let distinct = no_duplicates-Distinct (node_names nodes) names in
    record {
      distinct = distinct;
      resolved = resolved;
      rank = rank_in settled;
      ranked =
          check_acyclic-IsRanked (made_by nodes) settled
            (graph_of-IsDict (all_produced nodes []) nodes distinct) sorted;
    }

-- An expansion that succeeds is runnable: its nodes have different names and no cycle, and every input
-- of a node is a value of the request or a registered output, or is made by a node, and is no
-- placeholder of a region.
pub expand_workflow_pure-IsRunnable :
    (V : Values) (uuid : ℕ → String) (w expanded : Workflow) (inputs injected : Dict String V.Value)
    → expand_workflow_pure V uuid w inputs ≡ ok (expanded, injected)
    → IsRunnable w expanded (keys inputs ++ keys injected)
unfolding expand_workflow_pure
expand_workflow_pure-IsRunnable V uuid w expanded inputs injected h =
    let (r, _, h₁) = >>=-eq-ok (expand_passes V uuid w inputs) _ h in
    let (_, checked, h₂) = >>=-eq-ok (check_invariants r.0 w (keys inputs ++ keys r.1)) _ h₁ in
    subst (λ (q : Workflow × Dict String V.Value). IsRunnable w q.0 (keys inputs ++ keys q.1))
      (ok-injective h₂) (check_invariants-IsRunnable r.0 w (keys inputs ++ keys r.1) checked)
