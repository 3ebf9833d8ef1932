-- ===== src/Coordinator/Fed.antt =====
-- When every task that becomes ready can be prepared (coordinator.py): the producers of the workflow's
-- outputs that a node reads have completed.
use mathlib.Core.List.{Memᴰ}
use diflow.Prelude.{
  ◌≡◌, refl, ◌∙◌, inl, inr, Bool, true, false, not, ◌&&◌, some, List, [], ◌∷◌, arith, String, ◌==◌,
  string_eq, lookup, contains, ok, member, member-select, add_element, subset, Bool-cases,
  Option-cases, All-of_mem, Distinct, some_of,
}
use diflow.Workflow.{NodeIo, WorkflowNode}
use diflow.Dependency.{Sets, from_request, get_set, get_node_dependencies}
use diflow.Dependency.Producers.{
  node_names, needs, is_producer, is_reported, produces, get_node_dependencies-member,
}
use diflow.Coordinator.{Request, non_lazy_sets, preparing, mark_node_completed}
use diflow.Coordinator.Inputs.{RequestSources}
use diflow.Coordinator.Inputs.Preparable.{is_stored_output}
use diflow.Coordinator.Tracking.{
  IsFed, waits_for, get_set-cons, IsCompletion, mark_node_completed_total,
}
use diflow.Coordinator.Run.{Reach, Reach-IsRunning}

non_lazy_sets-member :
    (lazy prerequisites : Sets) (x y : String)
    → member x (get_set y (non_lazy_sets lazy prerequisites))
      ≡ (member x (get_set y prerequisites) && not (member x (get_set y lazy)))
unfolding non_lazy_sets
non_lazy_sets-member lazy [] x y = unfold member lookup in refl
non_lazy_sets-member lazy ((name, deps) ∷ prerequisites) x y =
    let kept = λ (d : String). not (member d (get_set name lazy)) in
    elim (Bool-cases (name == y)) [
      | inl same ↦
          let e : name ≡ y = (string_eq.beq_iff name y).0 same in
          rw (get_set-cons, get_set-cons) (rw same (member-select kept x deps ∙ rw e refl))
      | inr other ↦
          rw (get_set-cons, get_set-cons) (rw other (non_lazy_sets-member lazy prerequisites x y))
    ]

get_set-some :
    (y : String) (d : Sets) (deps : List String) → lookup y d ≡ some deps → get_set y d ≡ deps
get_set-some y d deps h = rw (get_set, h) refl

-- A node waits for exactly the producers of its inputs that make none of its lazy inputs.
pub waits_for-member :
    (nodes : List WorkflowNode) (n : WorkflowNode) (d : String)
    → Distinct (node_names nodes)
    → Memᴰ n nodes
    → member d (get_set n.name (waits_for nodes))
      ≡ (needs false nodes n d && not (needs true nodes n d))
waits_for-member nodes n d distinct m =
    let (all, found, says) = get_node_dependencies-member false nodes n d distinct m in
    let (lazy, lazy_found, lazy_says) = get_node_dependencies-member true nodes n d distinct m in
    rw
      (
        non_lazy_sets-member,
        get_set-some n.name (get_node_dependencies false nodes) all found,
        get_set-some n.name (get_node_dependencies true nodes) lazy lazy_found,
        says,
        lazy_says,
      )
      refl

-- The results of completed nodes are there, for all their outputs that are outputs of the workflow.
abbrev pub AreReported : {V : Type 0} → RequestSources V → List WorkflowNode → List String → Type 0
AreReported s nodes completed =
    (k : WorkflowNode) (tensor : String)
    → Memᴰ k nodes
    → member k.name completed ≡ true
    → produces tensor k ≡ true
    → is_stored_output s tensor ≡ true

-- Another node makes the input, and none of the lazy inputs of `n`.
abbrev pub IsMadeApart : List WorkflowNode → WorkflowNode → String × NodeIo → Type 0
IsMadeApart nodes n i =
    (k : WorkflowNode) × Memᴰ k nodes
    × (is_producer i.1.name n k.name k ≡ true)
    × (from_request i.1 ≡ false)
    × (needs true nodes n k.name ≡ false)

-- This holds of every output of the workflow that a node reads, neither lazily nor from the request.
abbrev pub IsSeparate : {V : Type 0} → RequestSources V → List WorkflowNode → Type 0
IsSeparate s nodes =
    (n : WorkflowNode) (i : String × NodeIo)
    → Memᴰ n nodes
    → Memᴰ i n.inputs
    → i.1.lazy ≡ false
    → contains i.1.name s.inputs ≡ false
    → contains i.1.name s.required_outputs ≡ true
    → IsMadeApart nodes n i

Mem-some_of {ℓ} :
    {A : Type ℓ} (p : A → Bool) (x : A) (xs : List A) → Memᴰ x xs → p x ≡ true → some_of p xs ≡ true
Mem-some_of p x [] m h = elim m [ ]
Mem-some_of p x (y ∷ xs) (Memᴰ.head e) h = let here : p y ≡ true = rw (← e) h in rw here refl
Mem-some_of p x (y ∷ xs) (Memᴰ.tail m) h = ground (arith, Mem-some_of p x xs m h)

every-Mem :
    (ys : List String) (x : String) (xs : List String)
    → subset xs ys ≡ true
    → member x xs ≡ true
    → member x ys ≡ true
unfolding member
every-Mem ys x [] h m = cc
every-Mem ys x (z ∷ xs) h m = elim (Bool-cases (z == x)) [
  | inl same ↦ let e : z ≡ x = (string_eq.beq_iff z x).0 same in rw (← e) (ground arith)
  | inr other ↦ every-Mem ys x xs (ground arith) (ground arith)
]

reported-IsFed :
    {V : Type 0} (s : RequestSources V) (nodes : List WorkflowNode) (completed : List String)
    → Distinct (node_names nodes)
    → IsSeparate s nodes
    → AreReported s nodes completed
    → IsFed s nodes completed
reported-IsFed s nodes completed distinct separate reported n m ready =
    All-of_mem n.inputs λ i read. elim (Bool-cases i.1.lazy) [
      | inl lazy ↦ rw lazy refl
      | inr eager ↦ elim (Bool-cases (contains i.1.name s.inputs)) [
        | inl given ↦ rw (eager, given) refl
        | inr not_given ↦ elim (Option-cases (lookup i.1.name s.required_outputs)) [
          | inl inside ↦ rw (eager, not_given) (rw (is_stored_output, inside) refl)
          | inr (final, out) ↦
              let (k, made, makes, edge, waited) =
                separate n i m read eager not_given (rw out refl) in
              let makes_it = Mem-some_of (is_producer i.1.name n k.name) k nodes made makes in
              let needed : needs false nodes n k.name ≡ true =
                Mem-some_of
                  (λ (j : String × NodeIo).
                    is_reported false j.1 && some_of (is_producer j.1.name n k.name) nodes)
                  i n.inputs read (rw (edge, makes_it) refl) in
              let waits : member k.name (get_set n.name (waits_for nodes)) ≡ true =
                rw (waits_for-member nodes n k.name distinct m, needed, waited) refl in
              let done =
                every-Mem completed k.name (get_set n.name (waits_for nodes)) ready waits in
              rw (eager, not_given) (reported k i.1.name made done (ground arith))
        ]
      ]
    ]

pub mark_node_completed_reported :
    {V : Type 0} (s : RequestSources V) (nodes : List WorkflowNode) (r : Request) (name : String)
    → Distinct (node_names nodes)
    → Reach nodes r
    → IsSeparate s nodes
    → AreReported s nodes (add_element name r.completed_nodes)
    → (r' : Request) × (mark_node_completed (preparing s nodes) r name ≡ ok r')
      × IsCompletion r name r'
mark_node_completed_reported s nodes r name distinct reach separate reported =
    let running = Reach-IsRunning nodes r reach in
    mark_node_completed_total s nodes r name running.tracked running.tasks running.waits
      (reported-IsFed s nodes (add_element name r.completed_nodes) distinct separate reported)
