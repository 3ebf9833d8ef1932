-- ===== src/Service.antt =====
-- From an expanded workflow to the run of its request (diflow/interface/workflow_expand.py and
-- diflow/backend/coordinator.py).
pub mod Single
use mathlib.Core.Path.{subst}
use mathlib.Core.List.{Memᴰ}
use diflow.Prelude.{
  add_element, ℕ, ◌≡◌, refl, sym, ap, ◌∙◌, ◌⊎◌, inl, inr, Bool, true, false, not, ◌&&◌, Option,
  none, some, List, [], ◌∷◌, map, String, arith, ◌==◌, string_eq, beq_refl, if◌then◌else◌, some_of,
  Dict, lookup, insert, lookup-insert, member, member-add, member-append, ◌++◌, Distinct, ok,
  Bool-cases, both, Mem-member, Memᴰ-map,
}
use diflow.Workflow.{NodeIo, WorkflowNode}
use diflow.Dependency.{get_set, from_request, get_node_dependencies}
use diflow.Dependency.Edges.{has_edge}
use diflow.Dependency.Producers.{
  node_names, node_deps, node_deps-member, produces, is_producer, is_reported, needs, some_of-Mem,
}
use diflow.Expr.{Values}
use diflow.Region.{Workflow, io_names}
use diflow.Expand.Checks.{
  record_outputs, all_produced, add_prerequisites, add_maker, graph_of, expand_workflow_pure,
}
use diflow.Expand.Ordered.{or_no_set}
use diflow.Expand.Sound.{made_by, expand_workflow_pure-IsRunnable}
use diflow.Coordinator.Inputs.{RequestSources}
use diflow.Coordinator.{Request, preparing, mark_node_completed, is_request_complete}
use diflow.Coordinator.Tracking.{waits_for, non_lazy_edge, IsFed}
use diflow.Coordinator.Run.{Reach}
use diflow.Coordinator.Finish.{Reach-progress}
use diflow.Service.Single.{IsSingle, output_names, IsSingle-of_Distinct}

record_outputs-lookup :
    (name wanted : String) (outputs : Dict String NodeIo) (d : Dict String String)
    → lookup wanted (record_outputs name outputs d) ≡ (
        if some_of (λ (o : String × NodeIo). o.1.name == wanted) outputs
        then some name
        else lookup wanted d)
unfolding record_outputs
record_outputs-lookup name wanted [] d = refl
record_outputs-lookup name wanted ((key, io) ∷ outputs) d = ground (
  arith,
  record_outputs-lookup name wanted outputs (insert io.name name d),
  lookup-insert io.name wanted name d,
)

all_produced-none :
    (nodes : List WorkflowNode) (wanted : String) (d : Dict String String)
    → some_of (produces wanted) nodes ≡ false
    → lookup wanted (all_produced nodes d) ≡ lookup wanted d
unfolding all_produced
all_produced-none [] wanted d h = refl
all_produced-none (n ∷ nodes) wanted d h =
    all_produced-none nodes wanted (record_outputs n.name n.outputs d) (ground arith)
    ∙ (record_outputs-lookup n.name wanted n.outputs d ∙ ground arith)

-- A value that some node makes is recorded with a node that makes it.
all_produced-some :
    (nodes : List WorkflowNode) (wanted : String) (d : Dict String String)
    → some_of (produces wanted) nodes ≡ true
    → (k : WorkflowNode) × Memᴰ k nodes
      × (produces wanted k ≡ true)
      × (lookup wanted (all_produced nodes d) ≡ some k.name)
unfolding all_produced
all_produced-some [] wanted d h = cc
all_produced-some (n ∷ nodes) wanted d h = elim (Bool-cases (some_of (produces wanted) nodes)) [
  | inl later ↦
      let (k, m, makes, found) =
        all_produced-some nodes wanted (record_outputs n.name n.outputs d) later in
      (k, Memᴰ.tail m, makes, found)
  | inr last ↦
      let makes : produces wanted n ≡ true = ground arith in
      (
        n,
        Memᴰ.head refl,
        makes,
        all_produced-none nodes wanted (record_outputs n.name n.outputs d) last
            ∙ (record_outputs-lookup n.name wanted n.outputs d ∙ rw makes refl),
      )
]

add_maker-keep :
    (o : Option String) (consumer x : String) (deps : List String)
    → member x deps ≡ true
    → member x (add_maker o consumer deps) ≡ true
add_maker-keep none consumer x deps h = h
add_maker-keep (some k) consumer x deps h = ground (arith, member-add k x deps)

add_prerequisites-keep :
    (produced : Dict String String) (consumer x : String) (inputs : Dict String NodeIo)
    (deps : List String)
    → member x deps ≡ true
    → member x (add_prerequisites produced consumer inputs deps) ≡ true
unfolding add_prerequisites
add_prerequisites-keep produced consumer x [] deps h = h
add_prerequisites-keep produced consumer x ((key, io) ∷ inputs) deps h =
    add_prerequisites-keep produced consumer x inputs _
      (ground (arith, add_maker-keep (lookup io.name produced) consumer x deps h))

add_prerequisites-member :
    (produced : Dict String String) (consumer x : String) (i : String × NodeIo)
    (inputs : Dict String NodeIo) (deps : List String)
    → Memᴰ i inputs
    → from_request i.1 ≡ false
    → lookup i.1.name produced ≡ some x
    → (x == consumer) ≡ false
    → member x (add_prerequisites produced consumer inputs deps) ≡ true
unfolding add_prerequisites
add_prerequisites-member produced consumer x i [] deps m edge found other = elim m [ ]
add_prerequisites-member produced consumer x i ((key, io) ∷ inputs) deps (Memᴰ.head e) edge found
      other =
    add_prerequisites-keep produced consumer x inputs _ (
      added (key, io) (subst (λ j. from_request j.1 ≡ false) e edge)
        (subst (λ j. lookup j.1.name produced ≡ some x) e found))
  where
    added :
        (j : String × NodeIo)
        → from_request j.1 ≡ false
        → lookup j.1.name produced ≡ some x
        → member x
            (if from_request j.1 then deps else add_maker (lookup j.1.name produced) consumer deps)
          ≡ true
    added j edge' found' =
        rw (edge', found') (rw other (rw member-add (ground (arith, string_eq.beq_iff x x))))
add_prerequisites-member produced consumer x i ((key, io) ∷ inputs) deps (Memᴰ.tail m) edge found
      other =
    add_prerequisites-member produced consumer x i inputs _ m edge found other

graph_of-lookup :
    (produced : Dict String String) (n : WorkflowNode) (nodes : List WorkflowNode)
    → Distinct (node_names nodes)
    → Memᴰ n nodes
    → lookup n.name (graph_of produced nodes) ≡ some (add_prerequisites produced n.name n.inputs [])
unfolding graph_of lookup
graph_of-lookup produced n [] d m = elim m [ ]
graph_of-lookup produced n (k ∷ nodes) d (Memᴰ.head e) = rw (e, beq_refl k.name) refl
graph_of-lookup produced n (k ∷ nodes) d (Memᴰ.tail m) =
    let listed = Mem-member n.name (node_names nodes) (Memᴰ-map (λ k. k.name) n nodes m) in
    ground
      (arith, string_eq.beq_iff k.name n.name, graph_of-lookup produced n nodes d.1 m, listed, d.0)

edge-node :
    (f : WorkflowNode → List String) (nodes : List WorkflowNode) (x y : String)
    → has_edge (map (λ n. (n.name, f n)) nodes) x y ≡ true
    → (n : WorkflowNode) × Memᴰ n nodes × (n.name ≡ y) × (member x (f n) ≡ true)
edge-node f [] x y h = cc
edge-node f (n ∷ nodes) x y h = elim (Bool-cases (n.name == y && member x (f n))) [
  | inl here ↦
      let (named, listed) = both (n.name == y) (member x (f n)) here in
      (n, Memᴰ.head refl, (string_eq.beq_iff n.name y).0 named, listed)
  | inr later ↦
      let (k, m, named, listed) = edge-node f nodes x y (ground arith) in
      (k, Memᴰ.tail m, named, listed)
]

some_of_Mem {ℓ} :
    {A : Type ℓ} (p : A → Bool) (xs : List A) (x : A) → Memᴰ x xs → p x ≡ true → some_of p xs ≡ true
some_of_Mem p [] x m h = elim m [ ]
some_of_Mem p (y ∷ ys) x (Memᴰ.head e) h = rw (← e, h) refl
some_of_Mem p (y ∷ ys) x (Memᴰ.tail m) h = ground (arith, some_of_Mem p ys x m h)

-- A node of an expanded workflow waits only for nodes that the checks saw it depend on.
waits_for-made_by :
    (nodes : List WorkflowNode) (x y : String)
    → Distinct (node_names nodes)
    → IsSingle nodes
    → member x (get_set y (waits_for nodes)) ≡ true
    → member x (get_set y (made_by nodes)) ≡ true
unfolding get_node_dependencies member
waits_for-made_by nodes x y distinct single h =
    let edge =
      non_lazy_edge (get_node_dependencies true nodes) (get_node_dependencies false nodes) x y h in
    let (n, m, named, listed) = edge-node (node_deps false nodes) nodes x y edge in
    let needed : needs false nodes n x ≡ true = sym (node_deps-member false nodes n x) ∙ listed in
    let (i, i_listed, consumed) =
      some_of-Mem
        (λ (i : String × NodeIo). is_reported false i.1 && some_of (is_producer i.1.name n x) nodes)
        n.inputs needed in
    let (reported, made) =
      both (is_reported false i.1) (some_of (is_producer i.1.name n x) nodes) consumed in
    let (other, o_listed, made_here) = some_of-Mem (is_producer i.1.name n x) nodes made in
    let (another, rest) =
      both (not (other.name == n.name)) (produces i.1.name other && other.name == x) made_here in
    let (makes, is_x) = both (produces i.1.name other) (other.name == x) rest in
    let (k, k_listed, k_makes, found) =
      all_produced-some nodes i.1.name []
        (some_of_Mem (produces i.1.name) nodes other o_listed makes) in
    let same : k.name ≡ x =
      single k other i.1.name k_listed o_listed k_makes makes
      ∙ (string_eq.beq_iff other.name x).0 is_x in
    let entry = graph_of-lookup (all_produced nodes []) n nodes distinct m in
    let listed' =
      add_prerequisites-member (all_produced nodes []) n.name x i n.inputs [] i_listed
        (ground arith) (found ∙ ap (λ s. some s) same)
        (ground (arith, (string_eq.beq_iff other.name x).0 is_x)) in
    subst (λ z. member x (get_set z (made_by nodes)) ≡ true) named
      (subst (λ (o : Option (List String)). member x (or_no_set o) ≡ true) (sym entry) listed')

-- No deadlock from expansion to completion: while the request of a workflow that was expanded runs, it
-- is complete, or a task that was not completed is on the queue, whose completion raises no error. No
-- two values that the nodes make may have the same name. When a queued task is reported, the
-- coordinator must have the result of each output of the workflow that is read, neither lazily nor
-- from the request's inputs, by a node that may start after its completion.
pub expanded_request-progress :
    (V : Values) (uuid : ℕ → String) (w expanded : Workflow) (inputs injected : Dict String V.Value)
    (kept : String → RequestSources V.Value) (r : Request)
    → expand_workflow_pure V uuid w inputs ≡ ok (expanded, injected)
    → Distinct (output_names expanded.workflow_nodes)
    → Reach expanded.workflow_nodes r
    → ((name : String)
        → member name r.queued ≡ true
        → member name r.completed_nodes ≡ false
        → IsFed (kept name) expanded.workflow_nodes (add_element name r.completed_nodes))
    → (is_request_complete r ≡ true)
      ⊎ ((name : String) × (r' : Request) × (member name r.queued ≡ true)
          × (member name r.completed_nodes ≡ false)
          × (mark_node_completed (preparing (kept name) expanded.workflow_nodes) r name ≡ ok r'))
expanded_request-progress V uuid w expanded inputs injected kept r h outputs reach fed =
    let s = expand_workflow_pure-IsRunnable V uuid w expanded inputs injected h in
    let nodes = expanded.workflow_nodes in
    Reach-progress kept nodes r s.rank s.distinct
      (λ x y m.
        s.ranked x y
          (waits_for-made_by nodes x y s.distinct (IsSingle-of_Distinct nodes outputs) m))
      reach fed
