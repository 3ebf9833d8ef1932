-- ===== src/Coordinator/Examples.antt =====
-- A request of two nodes, where the second consumes what the first makes.
use mathlib.Core.Path.{subst}
use mathlib.Core.List.{Memᴰ}
use diflow.Prelude.{
  sym, All, raise, key_error, ℕ, ◌≡◌, refl, ◌⊎◌, ◌↔◌, true, false, none, some, List, [], ◌∷◌,
  String, ◌==◌, string_eq, if◌then◌else◌, lookup, insert, member, add_element, Distinct, IsSubset,
  ok, arith,
}
use diflow.Workflow.{NodeIo, Operator, WorkflowNode, SourceType}
use diflow.Dependency.{Sets, get_node_dependencies, build_successors}
use diflow.Dependency.Edges.{IsRanked}
use diflow.Dependency.Producers.{node_names}
use diflow.Coordinator.Inputs.{RequestSources, prepare_task_inputs}
use diflow.Coordinator.Inputs.Preparable.{IsPreparable}
use diflow.Coordinator.{
  Request, Preparing, preparing, start_request, mark_node_completed, is_request_complete,
  non_lazy_sets,
}
use diflow.Coordinator.Tracking.{
  IsFed, IsStarted, IsCompletion, waits_for, start_request_total, mark_node_completed_total,
}
use diflow.Coordinator.Run.{finish, Reach, start, more, IsRunning, Reach-IsRunning}
use diflow.Coordinator.Finish.{is_request_complete_iff, Reach-progress}

abbrev op : String → Operator
op id = record {
  id = id;
  patches = [];
  is_scheduler = false;
  op_outputs = [];
  execution_modes = [];
}

abbrev edge : String → SourceType → NodeIo
edge name kind = record {
  name = name;
  data_type = "torch.Tensor";
  source_type = some kind;
  source_node = none;
  size = none;
  lazy = false;
}

abbrev encoder : WorkflowNode
encoder = record {
  name = "enc_0";
  op = op "enc";
  mode = "default";
  inputs = ("text", edge "prompt" SourceType.input) ∷ [];
  outputs = ("out", edge "enc_0:out" SourceType.node) ∷ [];
}

abbrev decoder : WorkflowNode
decoder = record {
  name = "dec_0";
  op = op "dec";
  mode = "default";
  inputs = ("latents", edge "enc_0:out" SourceType.node) ∷ [];
  outputs = ("out", edge "dec_0:out" SourceType.node) ∷ [];
}

abbrev nodes : List WorkflowNode
nodes = encoder ∷ decoder ∷ []

abbrev begun : Request
begun = record {
  node_prerequisites = ("enc_0", []) ∷ ("dec_0", "enc_0" ∷ []) ∷ [];
  node_lazy_prerequisites = ("enc_0", []) ∷ ("dec_0", []) ∷ [];
  node_non_lazy_prerequisites = ("enc_0", []) ∷ ("dec_0", "enc_0" ∷ []) ∷ [];
  node_successors = ("enc_0", "dec_0" ∷ []) ∷ ("dec_0", []) ∷ [];
  tasks = "enc_0" ∷ "dec_0" ∷ [];
  scheduled_nodes = "enc_0" ∷ [];
  completed_nodes = [];
  queued = "enc_0" ∷ [];
}

abbrev half_way : Request
half_way = record begun {
  scheduled_nodes = "enc_0" ∷ "dec_0" ∷ [];
  completed_nodes = "enc_0" ∷ [];
  queued = "enc_0" ∷ "dec_0" ∷ [];
}

-- What the coordinator keeps: the prompt, and one output that has no result yet.
abbrev kept : RequestSources String
kept = record {
  inputs = ("prompt", "a cat") ∷ [];
  required_outputs = ("dec_0:out", "image") ∷ [];
  results = none;
  tensor_map = [];
}

abbrev prepare : Preparing
prepare = preparing kept nodes

-- No node reads an output of the workflow.
fed : (completed : List String) → IsFed kept nodes completed
unfolding lookup
fed completed n (Memᴰ.head e) ready =
    subst (λ (m : WorkflowNode). All (IsPreparable kept) m.inputs) (sym e) (refl, tt)
fed completed n (Memᴰ.tail (Memᴰ.head e)) ready =
    subst (λ (m : WorkflowNode). All (IsPreparable kept) m.inputs) (sym e) (refl, tt)
fed completed n (Memᴰ.tail (Memᴰ.tail m)) ready = elim m [ ]

-- A node that reads an output of the workflow whose result is missing cannot be prepared.
abbrev viewer : WorkflowNode
viewer = record decoder {
  name = "view_0";
  inputs = ("image", edge "dec_0:out" SourceType.node) ∷ [];
}

unfed : preparing kept (viewer ∷ []) "view_0" ≡ raise key_error
unfolding preparing prepare_task_inputs lookup insert
unfed = refl

started : start_request prepare nodes ≡ ok begun
unfolding start_request preparing prepare_task_inputs get_node_dependencies build_successors lookup
    insert member add_element
started = refl

encoded : mark_node_completed prepare begun "enc_0" ≡ ok half_way
unfolding mark_node_completed preparing prepare_task_inputs lookup insert member add_element
encoded = refl

on_queue : member "enc_0" begun.queued ≡ true
unfolding member
on_queue = refl

run : Reach nodes half_way
run = more (start prepare started) (finish prepare "enc_0" on_queue encoded)

names_differ : Distinct (node_names nodes)
unfolding member
names_differ = (refl, (refl, tt))

-- The encoder runs first.
abbrev rank : String → ℕ
rank name = if name == "dec_0" then 1 else 0

abbrev waits : Sets
waits = ("enc_0", []) ∷ ("dec_0", "enc_0" ∷ []) ∷ []

waits_lem : waits_for nodes ≡ waits
unfolding get_node_dependencies non_lazy_sets lookup member add_element
waits_lem = refl

waits-IsRanked : IsRanked waits rank
unfolding lookup member
waits-IsRanked x y h = ground (
  arith,
  string_eq.beq_iff "enc_0" y,
  string_eq.beq_iff "dec_0" y,
  string_eq.beq_iff "enc_0" x,
  string_eq.beq_iff y "dec_0",
  string_eq.beq_iff x "dec_0",
)

ranked : IsRanked (waits_for nodes) rank
ranked = rw waits_lem waits-IsRanked

Reach-IsRunning_example : IsRunning nodes half_way
Reach-IsRunning_example = Reach-IsRunning nodes half_way run

Reach-progress_example :
    (is_request_complete half_way ≡ true)
    ⊎ ((name : String) × (r' : Request) × (member name half_way.queued ≡ true)
        × (member name half_way.completed_nodes ≡ false)
        × (mark_node_completed prepare half_way name ≡ ok r'))
Reach-progress_example =
    Reach-progress (λ name. kept) nodes half_way rank names_differ ranked run
      (λ name queued pending. fed (add_element name half_way.completed_nodes))

is_request_complete_iff_example :
    is_request_complete half_way ≡ true ↔ IsSubset (node_names nodes) half_way.completed_nodes
is_request_complete_iff_example = is_request_complete_iff nodes half_way names_differ run

start_request_total_example :
    (r : Request) × (start_request prepare nodes ≡ ok r) × IsStarted nodes r
start_request_total_example = start_request_total kept nodes (fed [])

running : IsRunning nodes half_way
running = Reach-IsRunning nodes half_way run

mark_node_completed_total_example :
    (r : Request) × (mark_node_completed prepare half_way "dec_0" ≡ ok r)
    × IsCompletion half_way "dec_0" r
mark_node_completed_total_example =
    mark_node_completed_total kept nodes half_way "dec_0" running.tracked running.tasks
      running.waits (fed (add_element "dec_0" half_way.completed_nodes))
