-- ===== src/Dependency/Producers.antt =====
-- Which nodes `get_node_dependencies` reports (dependency.py).
use mathlib.Core.List.{Memᴰ}
use diflow.Prelude.{
  ◌≡◌, refl, sym, ◌∙◌, inl, inr, Bool, true, false, not, ◌&&◌, ◌||◌, some, List, [], ◌∷◌, map,
  arith, String, ◌==◌, string_eq, Dict, lookup, contains, ok, add_element, member, member-add,
  Bool-cases, All, some_of, All-of_mem, Mem-member, beq_refl, Distinct, Memᴰ-map,
}
use diflow.Workflow.{NodeIo, WorkflowNode}
use diflow.Dependency.{
  Sets, no_successors, get_set, from_request, add_if_produces, add_producers, add_inputs,
  get_node_dependencies, build_successors,
}
use diflow.Dependency.Edges.{has_edge, add_successors_total, build_successors-member}

-- The node has an output named `wanted`.
abbrev pub produces : String → WorkflowNode → Bool
produces wanted other = some_of (λ (o : String × NodeIo). o.1.name == wanted) other.outputs

-- The other node named `d` produces `wanted`.
abbrev pub is_producer : String → WorkflowNode → String → WorkflowNode → Bool
is_producer wanted consumer d other =
    not (other.name == consumer.name) && (produces wanted other && other.name == d)

-- The input is one that the analysis reports: made by a node, and lazy if only lazy ones count.
abbrev pub is_reported : Bool → NodeIo → Bool
is_reported lazy_only io = not (from_request io || (lazy_only && not io.lazy))

-- Some reported input of the consumer is an output of another node, named `d`.
abbrev pub needs : Bool → List WorkflowNode → WorkflowNode → String → Bool
needs lazy_only nodes consumer d =
    some_of
      (λ (i : String × NodeIo).
        is_reported lazy_only i.1 && some_of (is_producer i.1.name consumer d) nodes)
      consumer.inputs

add_if_produces-member :
    (wanted d : String) (other : WorkflowNode) (outputs : Dict String NodeIo) (deps : List String)
    → member d (add_if_produces wanted other outputs deps) ≡ (
        member d deps
        || (some_of (λ (o : String × NodeIo). o.1.name == wanted) outputs && other.name == d))
unfolding add_if_produces
add_if_produces-member wanted d other [] deps = ground arith
add_if_produces-member wanted d other ((key, io) ∷ outputs) deps =
    elim (Bool-cases (io.name == wanted)) [
      | inl matches ↦
          rw (matches, add_if_produces)
            (ground (
              arith,
              add_if_produces-member wanted d other outputs (add_element other.name deps),
              member-add other.name d deps,
            ))
      | inr differs ↦
          rw (differs, add_if_produces) (add_if_produces-member wanted d other outputs deps)
    ]

add_producers-member :
    (wanted d : String) (consumer : WorkflowNode) (others : List WorkflowNode) (deps : List String)
    → member d (add_producers wanted consumer others deps)
      ≡ (member d deps || some_of (is_producer wanted consumer d) others)
unfolding add_producers
add_producers-member wanted d consumer [] deps = ground arith
add_producers-member wanted d consumer (other ∷ others) deps =
    elim (Bool-cases (other.name == consumer.name)) [
      | inl same ↦ rw (same, add_producers) (add_producers-member wanted d consumer others deps)
      | inr another ↦
          rw (another, add_producers)
            (ground (
              arith,
              add_producers-member wanted d consumer others
                  (add_if_produces wanted other other.outputs deps),
              add_if_produces-member wanted d other other.outputs deps,
            ))
    ]

add_inputs-member :
    (lazy_only : Bool) (nodes : List WorkflowNode) (consumer : WorkflowNode) (d : String)
    (inputs : Dict String NodeIo) (deps : List String)
    → member d (add_inputs lazy_only nodes consumer inputs deps) ≡ (
        member d deps
        || some_of
            (λ (i : String × NodeIo).
              is_reported lazy_only i.1 && some_of (is_producer i.1.name consumer d) nodes)
            inputs)
unfolding add_inputs
add_inputs-member lazy_only nodes consumer d [] deps = ground arith
add_inputs-member lazy_only nodes consumer d ((key, io) ∷ inputs) deps =
    elim (Bool-cases (from_request io || (lazy_only && not io.lazy))) [
      | inl skipped ↦
          rw (skipped, add_inputs) (add_inputs-member lazy_only nodes consumer d inputs deps)
      | inr taken ↦
          rw (taken, add_inputs)
            (ground (
              arith,
              add_inputs-member lazy_only nodes consumer d inputs
                  (add_producers io.name consumer nodes deps),
              add_producers-member io.name d consumer nodes deps,
            ))
    ]

-- The entry of a node in the dependency map.
abbrev pub node_deps : Bool → List WorkflowNode → WorkflowNode → List String
node_deps lazy_only nodes n = add_inputs lazy_only nodes n n.inputs []

pub node_deps-member :
    (lazy_only : Bool) (nodes : List WorkflowNode) (n : WorkflowNode) (d : String)
    → member d (node_deps lazy_only nodes n) ≡ needs lazy_only nodes n d
unfolding member
node_deps-member lazy_only nodes n d = add_inputs-member lazy_only nodes n d n.inputs []

abbrev pub node_names : List WorkflowNode → List String
node_names = map (λ n. n.name)

lookup-node :
    (f : WorkflowNode → List String) (n : WorkflowNode) (nodes : List WorkflowNode)
    → Distinct (node_names nodes)
    → Memᴰ n nodes
    → lookup n.name (map (λ k. (k.name, f k)) nodes) ≡ some (f n)
unfolding lookup
lookup-node f n [] d m = elim m [ ]
lookup-node f n (k ∷ nodes) d (Memᴰ.head e) = rw (e, beq_refl k.name)
lookup-node f n (k ∷ nodes) d (Memᴰ.tail m) =
    let listed = Mem-member n.name (node_names nodes) (Memᴰ-map (λ k. k.name) n nodes m) in
    ground (arith, string_eq.beq_iff k.name n.name, lookup-node f n nodes d.1 m, listed, d.0)

-- In a workflow whose node names are distinct, the dependency map reports for each node exactly the
-- other nodes that make one of its inputs: of all inputs made by nodes, or of the lazy ones.
pub get_node_dependencies-member :
    (lazy_only : Bool) (nodes : List WorkflowNode) (n : WorkflowNode) (d : String)
    → Distinct (node_names nodes)
    → Memᴰ n nodes
    → (deps : List String) × (lookup n.name (get_node_dependencies lazy_only nodes) ≡ some deps)
      × (member d deps ≡ needs lazy_only nodes n d)
unfolding get_node_dependencies
get_node_dependencies-member lazy_only nodes n d distinct m = (
  node_deps lazy_only nodes n,
  lookup-node (node_deps lazy_only nodes) n nodes distinct m,
  node_deps-member lazy_only nodes n d,
)

pub some_of-Mem {ℓ} :
    {A : Type ℓ} (p : A → Bool) (xs : List A)
    → some_of p xs ≡ true
    → (x : A) × Memᴰ x xs × (p x ≡ true)
some_of-Mem p [] h = cc
some_of-Mem p (x ∷ xs) h = elim (Bool-cases (p x)) [
  | inl here ↦ (x, Memᴰ.head refl, here)
  | inr not_here ↦ let (y, m, e) = some_of-Mem p xs (ground arith) in (y, Memᴰ.tail m, e)
]

-- A prerequisite is the name of a node.
pub needs-name :
    (lazy_only : Bool) (nodes : List WorkflowNode) (n : WorkflowNode) (d : String)
    → needs lazy_only nodes n d ≡ true
    → member d (node_names nodes) ≡ true
needs-name lazy_only nodes n d h =
    let (i, _, consumed) =
      some_of-Mem
        (λ (i : String × NodeIo).
          is_reported lazy_only i.1 && some_of (is_producer i.1.name n d) nodes)
        n.inputs h in
    let (other, m, made) = some_of-Mem (is_producer i.1.name n d) nodes (ground arith) in
    let named : other.name ≡ d = ground (arith, string_eq.beq_iff other.name d) in
    rw (← named) (Mem-member other.name (node_names nodes) (Memᴰ-map (λ k. k.name) other nodes m))

pub contains-no_successors :
    (names : List String) (x : String)
    → member x names ≡ true
    → contains x (map no_successors names) ≡ true
unfolding lookup member
contains-no_successors [] x h = cc
contains-no_successors (name ∷ names) x h = ground (arith, contains-no_successors names x)

prerequisites_known :
    (lazy_only : Bool) (all nodes : List WorkflowNode)
    → All
        (λ (p : String × List String).
          All (λ x. contains x (map no_successors (node_names all)) ≡ true) p.1)
        (map (λ n. (n.name, node_deps lazy_only all n)) nodes)
prerequisites_known lazy_only all [] = tt
prerequisites_known lazy_only all (n ∷ nodes) = (
  All-of_mem (node_deps lazy_only all n) λ x m. contains-no_successors (node_names all) x (
      needs-name lazy_only all n x
        (sym (node_deps-member lazy_only all n x) ∙ Mem-member x (node_deps lazy_only all n) m)),
  prerequisites_known lazy_only all nodes,
)

-- The successor map of a workflow is always built, and reverses its dependency map.
pub build_successors_total :
    (nodes : List WorkflowNode)
    → let prerequisites = get_node_dependencies false nodes in
      (successors : Sets) × (build_successors (node_names nodes) prerequisites ≡ ok successors)
      × ((x y : String) → member y (get_set x successors) ≡ has_edge prerequisites x y)
unfolding get_node_dependencies build_successors
build_successors_total nodes =
    let prerequisites = get_node_dependencies false nodes in
    let (successors, built, _) =
      add_successors_total prerequisites (map no_successors (node_names nodes))
        (prerequisites_known false nodes nodes) in
    (
      successors,
      built,
      λ x y. build_successors-member (node_names nodes) prerequisites successors x y built,
    )
