-- ===== src/Coordinator/Tracking.antt =====
-- A request from its start through its completions (coordinator.py).
use mathlib.Core.Path.{subst}
use mathlib.Core.List.{Memᴰ}
use diflow.Prelude.{
  none, some, subset, All, ◌≡◌, refl, sym, ◌∙◌, inl, inr, true, false, not, ◌&&◌, ◌||◌, List, [],
  ◌∷◌, map, arith, String, ◌==◌, string_eq, if◌then◌else◌, ok, member, add_element, member-add,
  Bool-cases, lookup, select, member-select, IsSubset,
}
use diflow.Workflow.{WorkflowNode}
use diflow.Dependency.{Sets, get_set, get_node_dependencies}
use diflow.Dependency.Edges.{has_edge}
use diflow.Dependency.Producers.{
  node_names, node_deps, node_deps-member, needs-name, build_successors_total,
}
use diflow.Coordinator.{
  Request, Preparing, find_task, preparing, is_task_ready, mark_node_completed, start_request,
  build_request, non_lazy_sets,
}
use diflow.Coordinator.Inputs.{RequestSources}
use diflow.Coordinator.Inputs.Preparable.{IsPreparable, prepare_task_inputs_returns}
use diflow.Coordinator.Progress.{
  IsSound, IsPrompt, scheduled, all_scheduled, all_scheduled-Visits, schedule_all-ok,
  schedule_all_total, schedule_successors-Visits, schedule_successors_total, subset-add,
  subset-add_new, is_task_ready-eq,
}

-- The tracking of a request: no task was started early or twice, every ready task was started, a
-- node is among the successors of what it waits for, and successors are tasks.
pub record IsTracked (r : Request) : Type 0 where
  pub sound : IsSound r
  pub prompt : IsPrompt r
  pub linked :
      (x y : String)
      → member x (get_set y r.node_non_lazy_prerequisites) ≡ true
      → member y (get_set x r.node_successors) ≡ true
  pub known :
      (x y : String) → member y (get_set x r.node_successors) ≡ true → member y r.tasks ≡ true
  pub closed :
      (x y : String)
      → member x (get_set y r.node_non_lazy_prerequisites) ≡ true
      → member x r.tasks ≡ true

pub get_set-cons :
    (name y : String) (deps : List String) (d : Sets)
    → get_set y ((name, deps) ∷ d) ≡ (if name == y then deps else get_set y d)
unfolding lookup
get_set-cons name y deps d = ground arith

pub non_lazy_edge :
    (lazy prerequisites : Sets) (x y : String)
    → member x (get_set y (non_lazy_sets lazy prerequisites)) ≡ true
    → has_edge prerequisites x y ≡ true
unfolding non_lazy_sets
non_lazy_edge lazy [] x y h = unfold member lookup in cc
non_lazy_edge lazy ((name, deps) ∷ prerequisites) x y h =
    let kept = λ (d : String). not (member d (get_set name lazy)) in
    ground (
      arith,
      get_set-cons name y (select kept deps) (non_lazy_sets lazy prerequisites),
      member-select kept x deps,
      non_lazy_edge lazy prerequisites x y,
    )

has_edge-name :
    (f : WorkflowNode → List String) (nodes : List WorkflowNode) (x y : String)
    → has_edge (map (λ n. (n.name, f n)) nodes) x y ≡ true
    → member y (node_names nodes) ≡ true
unfolding member
has_edge-name f [] x y h = cc
has_edge-name f (n ∷ nodes) x y h = ground (arith, has_edge-name f nodes x y)

has_edge-source :
    (all nodes : List WorkflowNode) (x y : String)
    → has_edge (map (λ n. (n.name, node_deps false all n)) nodes) x y ≡ true
    → member x (node_names all) ≡ true
has_edge-source all [] x y h = cc
has_edge-source all (n ∷ nodes) x y h =
    elim (Bool-cases (n.name == y && member x (node_deps false all n))) [
      | inl here ↦ needs-name false all n x (sym (node_deps-member false all n x) ∙ ground arith)
      | inr later ↦ has_edge-source all nodes x y (ground arith)
    ]

pub one_from :
    (r : Request) (name n : String)
    → member n (scheduled r name).scheduled_nodes ≡ true
    → (member n r.scheduled_nodes || name == n) ≡ true
unfolding scheduled
one_from r name n h =
    elim (Bool-cases (is_task_ready r name && not (member name r.scheduled_nodes))) [
      | inl new ↦ sym (member-add name n r.scheduled_nodes) ∙ (rw (new, scheduled) at h)
      | inr old ↦ let h' = rw (old, scheduled) at h in ground arith
    ]

all_from :
    (names : List String) (r : Request) (n : String)
    → member n (all_scheduled names r).scheduled_nodes ≡ true
    → (member n r.scheduled_nodes || member n names) ≡ true
unfolding all_scheduled member
all_from [] r n h = ground arith
all_from (name ∷ names) r n h =
    let later = all_from names (scheduled r name) n h in ground (arith, one_from r name n)

-- The nodes whose completion each node of a workflow waits for.
abbrev pub waits_for : List WorkflowNode → Sets
waits_for nodes =
    non_lazy_sets (get_node_dependencies true nodes) (get_node_dependencies false nodes)

-- Every node that may start once `completed` are completed can be prepared from what the coordinator
-- keeps of the request.
abbrev pub IsFed : {V : Type 0} → RequestSources V → List WorkflowNode → List String → Type 0
IsFed s nodes completed =
    (n : WorkflowNode)
    → Memᴰ n nodes
    → subset (get_set n.name (waits_for nodes)) completed ≡ true
    → All (IsPreparable s) n.inputs

find_task-none :
    (name : String) (nodes : List WorkflowNode)
    → member name (node_names nodes) ≡ false
    → find_task name nodes ≡ none
unfolding find_task member
find_task-none name [] h = refl
find_task-none name (n ∷ nodes) h =
    let rest = find_task-none name nodes (ground arith) in
    let other : (n.name == name) ≡ false = ground arith in rw (rest, other, find_task) refl

find_task-found :
    (name : String) (nodes : List WorkflowNode)
    → member name (node_names nodes) ≡ true
    → (n : WorkflowNode) × (find_task name nodes ≡ some n) × Memᴰ n nodes × (n.name ≡ name)
unfolding find_task member
find_task-found name [] h = cc
find_task-found name (n ∷ nodes) h = elim (Bool-cases (member name (node_names nodes))) [
  | inl later ↦
      let (m, found, listed, named) = find_task-found name nodes later in
      (m, rw (found, find_task) refl, Memᴰ.tail listed, named)
  | inr not_later ↦
      let here : (n.name == name) ≡ true = ground arith in
      (
        n,
        rw (find_task-none name nodes not_later, here, find_task) refl,
        Memᴰ.head refl,
        (string_eq.beq_iff n.name name).0 here,
      )
]

pub preparing-ok :
    {V : Type 0} (s : RequestSources V) (nodes : List WorkflowNode) (completed : List String)
    (name : String)
    → IsFed s nodes completed
    → member name (node_names nodes) ≡ true
    → subset (get_set name (waits_for nodes)) completed ≡ true
    → preparing s nodes name ≡ ok tt
unfolding preparing
preparing-ok s nodes completed name fed listed ready =
    let (n, found, here, named) = find_task-found name nodes listed in
    let (p, e) = prepare_task_inputs_returns s n (
      fed n here
        (subst (λ x. subset (get_set x (waits_for nodes)) completed ≡ true) (sym named) ready)) in
    rw found (rw e refl)

-- What holds of a request when its tasks have been created.
pub record IsStarted (nodes : List WorkflowNode) (r : Request) : Type 0 where
  pub tracked : IsTracked r
  pub tasks : r.tasks ≡ node_names nodes
  pub waits : r.node_non_lazy_prerequisites ≡ waits_for nodes
  pub scheduled : IsSubset r.scheduled_nodes r.tasks
  pub completed : r.completed_nodes ≡ []

abbrev created : List WorkflowNode → Sets → Request
created nodes successors = record {
  node_prerequisites = get_node_dependencies false nodes;
  node_lazy_prerequisites = get_node_dependencies true nodes;
  node_non_lazy_prerequisites = waits_for nodes;
  node_successors = successors;
  tasks = node_names nodes;
  scheduled_nodes = [];
  completed_nodes = [];
  queued = [];
}

all_scheduled-IsStarted :
    (nodes : List WorkflowNode) (successors : Sets)
    → ((x y : String)
        → member y (get_set x successors) ≡ has_edge (get_node_dependencies false nodes) x y)
    → IsStarted nodes (all_scheduled (node_names nodes) (created nodes successors))
unfolding is_task_ready
all_scheduled-IsStarted nodes successors reversed =
    let prerequisites = get_node_dependencies false nodes in
    let lazy = get_node_dependencies true nodes in
    let r₀ = created nodes successors in
    let (x, v) = all_scheduled-Visits (node_names nodes) r₀ in
    let r = all_scheduled (node_names nodes) r₀ in
    record {
      tracked = record {
        sound = x.sound (record { ready = λ n h. unfold member in cc; queue = refl; once = tt });
        prompt =
            λ n listed ready. v n (rw (← x.tasks) listed) (sym (is_task_ready-eq r₀ r n x) ∙ ready);
        linked = λ a b h.
            rw (x.successors, reversed a b)
              (non_lazy_edge lazy prerequisites a b (rw x.non_lazy at h));
        known = λ a b h. rw x.tasks (
            has_edge-name (node_deps false nodes) nodes a b
              (unfold get_node_dependencies in sym (reversed a b) ∙ (rw x.successors at h)));
        closed = λ a b h. rw x.tasks (
            unfold get_node_dependencies in
            has_edge-source nodes nodes a b
              (non_lazy_edge lazy prerequisites a b (rw x.non_lazy at h)));
      };
      tasks = x.tasks;
      waits = x.non_lazy;
      scheduled = λ n h. rw x.tasks (unfold member in all_from (node_names nodes) r₀ n h);
      completed = x.completed;
    }

-- A start that returns.
pub start_request-IsStarted :
    (prepare : Preparing) (nodes : List WorkflowNode) (r : Request)
    → start_request prepare nodes ≡ ok r
    → IsStarted nodes r
unfolding start_request build_request
start_request-IsStarted prepare nodes r e =
    let (successors, built, reversed) = build_successors_total nodes in
    let e' = rw (built, start_request) at e in
    subst (IsStarted nodes)
      (sym (schedule_all-ok prepare (node_names nodes) (created nodes successors) r e'))
      (all_scheduled-IsStarted nodes successors reversed)

-- A workflow is taken in where the nodes that wait for nothing can be prepared: its dependency maps
-- are built, and its request is tracked.
pub start_request_total :
    {V : Type 0} (s : RequestSources V) (nodes : List WorkflowNode)
    → IsFed s nodes []
    → (r : Request) × (start_request (preparing s nodes) nodes ≡ ok r) × IsStarted nodes r
unfolding start_request build_request is_task_ready
start_request_total s nodes fed =
    let (successors, built, reversed) = build_successors_total nodes in
    let returns =
      schedule_all_total (preparing s nodes) (node_names nodes) (created nodes successors)
        (λ n listed ready. preparing-ok s nodes [] n fed listed ready) in
    (
      all_scheduled (node_names nodes) (created nodes successors),
      rw (built, start_request) returns,
      all_scheduled-IsStarted nodes successors reversed,
    )

-- What a completion leads to: the completed set grows by the node, everything else that the other
-- operations read is kept, and the tracking goes on.
pub record IsCompletion (r : Request) (name : String) (r' : Request) : Type 0 where
  pub completed : r'.completed_nodes ≡ add_element name r.completed_nodes
  pub tasks : r'.tasks ≡ r.tasks
  pub non_lazy : r'.node_non_lazy_prerequisites ≡ r.node_non_lazy_prerequisites
  pub keeps : (n : String) → member n r.scheduled_nodes ≡ true → member n r'.scheduled_nodes ≡ true
  pub tracked : IsTracked r'

-- A completion that returns.
pub mark_node_completed-IsCompletion :
    (prepare : Preparing) (r r' : Request) (name : String)
    → IsTracked r
    → mark_node_completed prepare r name ≡ ok r'
    → IsCompletion r name r'
unfolding mark_node_completed is_task_ready
mark_node_completed-IsCompletion prepare r r' name t e =
    let r₁ : Request = record r { completed_nodes = add_element name r.completed_nodes } in
    let succ = get_set name r.node_successors in
    let (x, v) = schedule_successors-Visits prepare succ r₁ r' e in
    record {
      completed = x.completed;
      tasks = x.tasks;
      non_lazy = x.non_lazy;
      keeps = x.keeps;
      tracked = record {
        sound = x.sound (record {
          ready = λ n h.
              subset-add (get_set n r.node_non_lazy_prerequisites) r.completed_nodes name
                (t.sound.ready n h);
          queue = t.sound.queue;
          once = t.sound.once;
        });
        prompt = λ n listed ready.
            let listed₀ : member n r.tasks ≡ true = rw x.tasks at listed in
            let ready₁ = sym (is_task_ready-eq r₁ r' n x) ∙ ready in
            elim (Bool-cases (is_task_ready r n)) [
              | inl before ↦ x.keeps n (t.prompt n listed₀ before)
              | inr waited ↦
                  v n
                    (t.linked name n (
                      subset-add_new (get_set n r.node_non_lazy_prerequisites) r.completed_nodes
                        name waited ready₁))
                    ready₁
            ];
        linked = λ a b h. rw x.successors (t.linked a b (rw x.non_lazy at h));
        known = λ a b h. rw x.tasks (t.known a b (rw x.successors at h));
        closed = λ a b h. rw x.tasks (t.closed a b (rw x.non_lazy at h));
      };
    }

-- Completing a node of a tracked request raises no error where the nodes that may start after it can
-- be prepared, and keeps the request tracked: the tasks that become ready by it, and no others, are
-- scheduled.
pub mark_node_completed_total :
    {V : Type 0} (s : RequestSources V) (nodes : List WorkflowNode) (r : Request) (name : String)
    → IsTracked r
    → r.tasks ≡ node_names nodes
    → r.node_non_lazy_prerequisites ≡ waits_for nodes
    → IsFed s nodes (add_element name r.completed_nodes)
    → (r' : Request) × (mark_node_completed (preparing s nodes) r name ≡ ok r')
      × IsCompletion r name r'
unfolding mark_node_completed is_task_ready
mark_node_completed_total s nodes r name t tasks waits fed =
    let r₁ : Request = record r { completed_nodes = add_element name r.completed_nodes } in
    let succ = get_set name r.node_successors in
    let (r', e) = schedule_successors_total (preparing s nodes) succ r₁ (t.known name) (λ n m ready.
      preparing-ok s nodes (add_element name r.completed_nodes) n fed
        (rw tasks at (t.known name n m)) (rw waits at ready)) in
    (r', e, mark_node_completed-IsCompletion (preparing s nodes) r r' name t e)
