-- ===== src/Coordinator/Finish.antt =====
-- When a request is complete, and why it gets there (coordinator.py).
use diflow.Prelude.{
  ℕ, zero, suc, ◌<◌, ◌≡◌, refl, ap, ◌⊎◌, inl, inr, ◌↔◌, Bool, true, false, List, [], ◌∷◌, arith,
  String, ◌==◌, string_eq, ok, member, add_element, every, Distinct, Bool-cases, length, IsSubset,
  length-IsSubset, IsSubset_of_length,
}
use diflow.Workflow.{WorkflowNode}
use diflow.Dependency.{get_set}
use diflow.Dependency.Edges.{IsRanked}
use diflow.Dependency.Producers.{node_names}
use diflow.Coordinator.Inputs.{RequestSources}
use diflow.Coordinator.{Request, preparing, is_task_ready, mark_node_completed, is_request_complete}
use diflow.Coordinator.Tracking.{waits_for, IsFed, mark_node_completed_total}
use diflow.Coordinator.Run.{Reach, IsRunning, Reach-IsRunning}

completed-IsSubset :
    (nodes : List WorkflowNode) (r : Request)
    → IsRunning nodes r
    → IsSubset r.completed_nodes r.tasks
completed-IsSubset nodes r s n h = s.scheduled n (s.completed n h)

-- A request counts as complete exactly if every node of its workflow was completed.
pub is_request_complete_iff :
    (nodes : List WorkflowNode) (r : Request)
    → Distinct (node_names nodes)
    → Reach nodes r
    → is_request_complete r ≡ true ↔ IsSubset (node_names nodes) r.completed_nodes
unfolding is_request_complete
is_request_complete_iff nodes r distinct reach =
    let s = Reach-IsRunning nodes r reach in
    let fewer =
      length-IsSubset r.completed_nodes r.tasks s.counted (completed-IsSubset nodes r s) in
    (
      λ h. rw (← s.tasks) (
          IsSubset_of_length r.completed_nodes r.tasks s.counted (completed-IsSubset nodes r s)
            (ground arith)),
      λ all.
          let more = length-IsSubset (node_names nodes) r.completed_nodes distinct all in
          let same : length r.tasks ≡ length (node_names nodes) =
            ap (λ (xs : List String). length xs) s.tasks in
          ground arith,
    )

every_of :
    (p : String → Bool) (xs : List String)
    → ((x : String) → member x xs ≡ true → p x ≡ true)
    → every p xs ≡ true
unfolding member
every_of p [] h = refl
every_of p (x ∷ xs) h =
    let here : p x ≡ true = h x (ground (arith, string_eq.beq_iff x x)) in
    let rest = every_of p xs (λ y m. h y (ground arith)) in ground arith

find_pending :
    (p : String → Bool) (xs : List String)
    → ((x : String) → member x xs ≡ true → p x ≡ true)
      ⊎ ((x : String) × (member x xs ≡ true) × (p x ≡ false))
unfolding member
find_pending p [] = inl (λ x m. cc)
find_pending p (x ∷ xs) = elim (Bool-cases (p x)) [
  | inr pending ↦ inr (x, ground (arith, string_eq.beq_iff x x), pending)
  | inl done ↦ elim (find_pending p xs) [
    | inr (y, m, pending) ↦ inr (y, ground arith, pending)
    | inl rest ↦ inl λ y m. elim (Bool-cases (x == y)) [
      | inl same ↦ let named : x ≡ y = (string_eq.beq_iff x y).0 same in rw (← named) done
      | inr other ↦ rest y (ground arith)
    ]
  ]
]

-- If nothing is in progress, every task up to a rank was completed.
all_completed :
    (nodes : List WorkflowNode) (r : Request) (rank : String → ℕ)
    → IsRanked (waits_for nodes) rank
    → IsRunning nodes r
    → ((n : String) → member n r.scheduled_nodes ≡ true → member n r.completed_nodes ≡ true)
    → (bound : ℕ) (n : String) → rank n < bound
    → member n r.tasks ≡ true
    → member n r.completed_nodes ≡ true
unfolding is_task_ready
all_completed nodes r rank ranked s idle zero n below listed = ground arith
all_completed nodes r rank ranked s idle (suc bound) n below listed =
    let ready : is_task_ready r n ≡ true =
      every_of (λ x. member x r.completed_nodes) (get_set n r.node_non_lazy_prerequisites)
        λ x m.
          let lower = ranked x n (rw s.waits at m) in
          all_completed nodes r rank ranked s idle bound x (omega arith) (s.tracked.closed x n m) in
    idle n (s.tracked.prompt n listed ready)

-- No deadlock: in every state of a run of a workflow without cycles, the request is complete, or
-- there is a task on the queue that was not completed, whose completion raises no error. When
-- a queued task is reported, the coordinator must have, for every node that may start after its
-- completion, the result of each output of the workflow that the node reads, unless the input is lazy
-- or given with the request. The names of the nodes are distinct.
pub Reach-progress :
    {V : Type 0} (kept : String → RequestSources V) (nodes : List WorkflowNode) (r : Request)
    (rank : String → ℕ)
    → Distinct (node_names nodes)
    → IsRanked (waits_for nodes) rank
    → Reach nodes r
    → ((name : String)
        → member name r.queued ≡ true
        → member name r.completed_nodes ≡ false
        → IsFed (kept name) nodes (add_element name r.completed_nodes))
    → (is_request_complete r ≡ true)
      ⊎ ((name : String) × (r' : Request) × (member name r.queued ≡ true)
          × (member name r.completed_nodes ≡ false)
          × (mark_node_completed (preparing (kept name) nodes) r name ≡ ok r'))
Reach-progress kept nodes r rank distinct ranked reach fed =
    let s = Reach-IsRunning nodes r reach in
    elim (find_pending (λ x. member x r.completed_nodes) r.scheduled_nodes) [
      | inl idle ↦ inl (
          (is_request_complete_iff nodes r distinct reach).1 λ n m.
            all_completed nodes r rank ranked s idle (suc (rank n)) n (omega arith) (rw s.tasks m))
      | inr (name, started, pending) ↦
          let queued : member name r.queued ≡ true = rw s.tracked.sound.queue started in
          let (r', e, _) =
            mark_node_completed_total (kept name) nodes r name s.tracked s.tasks s.waits
              (fed name queued pending) in
          inr (name, r', queued, pending, e)
    ]
