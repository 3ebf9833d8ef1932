-- ===== src/Coordinator.antt =====
-- The coordinator's tracking of one request (diflow/backend/coordinator.py): the dependency maps,
-- the scheduled and the completed nodes, and the tasks put on the queue. A method is given the
-- entries of its request in the coordinator's dictionaries.
pub mod Progress
pub mod Tracking
pub mod Fed
pub mod Run
pub mod Finish
pub mod Ready
pub mod Placement
pub mod Overload
pub mod Tensors
pub mod Lazy
pub mod Inputs
pub mod TensorExamples
pub mod AdmissionExamples
pub mod LazyExamples
pub mod FedExamples
pub mod Examples
use diflow.Prelude.{
  ℕ, Bool, true, false, not, ◌&&◌, Option, none, some, List, [], ◌∷◌, ◌++◌, map, String, ◌==◌,
  string_eq, nat_beq, length, if◌then◌else◌, Dict, lookup, Outcome, ok, raise, ◌>>=◌, ◌>>◌, require,
  key_error, or_raise, member, add_element, subset, select,
}
use diflow.Workflow.{WorkflowNode}
use diflow.Coordinator.Inputs.{RequestSources, prepare_task_inputs}
use diflow.Dependency.{Sets, get_set, get_node_dependencies, build_successors}

pub record Request : Type 0 where
  pub node_prerequisites : Sets
  pub node_lazy_prerequisites : Sets
  pub node_non_lazy_prerequisites : Sets
  pub node_successors : Sets
  -- the keys of `request_tasks`
  pub tasks : List String
  pub scheduled_nodes : List String
  pub completed_nodes : List String
  -- the tasks put on `task_queue`, oldest first
  pub queued : List String

-- `prerequisites[node] - lazy_prerequisites.get(node, set())`, for each node.
unfoldable pub non_lazy_sets : Sets → Sets → Sets
non_lazy_sets lazy [] = []
non_lazy_sets lazy ((name, deps) ∷ prerequisites) =
    (name, select (λ d. not (member d (get_set name lazy))) deps) ∷ non_lazy_sets lazy prerequisites

-- `_build_dependency_graph`, with the tasks of `execute_workflow`, none of them scheduled.
unfoldable pub build_request : List WorkflowNode → Outcome Request
unfolding non_lazy_sets
build_request nodes = do
  let prerequisites = get_node_dependencies false nodes
  let lazy_prerequisites = get_node_dependencies true nodes
  successors ← build_successors (map (λ n. n.name) nodes) prerequisites
  ok (record {
    node_prerequisites = prerequisites;
    node_lazy_prerequisites = lazy_prerequisites;
    node_non_lazy_prerequisites = non_lazy_sets lazy_prerequisites prerequisites;
    node_successors = successors;
    tasks = map (λ n. n.name) nodes;
    scheduled_nodes = [];
    completed_nodes = [];
    queued = [];
  })

-- `_is_task_ready`
unfoldable pub is_task_ready : Request → String → Bool
is_task_ready r name = subset (get_set name r.node_non_lazy_prerequisites) r.completed_nodes

-- What `_prepare_task_inputs` does at a time for the task of each name: it returns, or it raises. The
-- prepared task itself is followed in Inputs.
abbrev pub Preparing : Type 0
Preparing = String → Outcome (Unit {0})

-- `request_tasks[request_id].get(name)`: a later node replaces an earlier one of its name.
unfoldable pub find_task : String → List WorkflowNode → Option WorkflowNode
find_task name [] = none
find_task name (n ∷ nodes) = elim (find_task name nodes) [
  | some later ↦ some later
  | none ↦ if n.name == name then some n else none
]

-- The preparation of a request's tasks, while the coordinator keeps `s` of the request.
unfoldable pub preparing : {V : Type 0} → RequestSources V → List WorkflowNode → Preparing
unfolding find_task
preparing s nodes name =
    or_raise key_error (find_task name nodes) >>= λ n. prepare_task_inputs s n >>= λ p. ok tt

-- A ready task that was not scheduled yet is prepared, scheduled and put on the queue.
unfoldable pub schedule_if_ready : Preparing → Request → String → Outcome Request
unfolding is_task_ready
schedule_if_ready prepare r name =
    if is_task_ready r name && not (member name r.scheduled_nodes)
    then (prepare name
        >> ok (record r {
          scheduled_nodes = add_element name r.scheduled_nodes;
          queued = r.queued ++ (name ∷ []);
        }))
    else ok r

-- The loop of `execute_workflow` over its tasks.
unfoldable pub schedule_all : Preparing → List String → Request → Outcome Request
unfolding schedule_if_ready
schedule_all prepare [] r = ok r
schedule_all prepare (name ∷ names) r =
    schedule_if_ready prepare r name >>= schedule_all prepare names

-- `execute_workflow`, up to the wait for completion.
unfoldable pub start_request : Preparing → List WorkflowNode → Outcome Request
unfolding build_request schedule_all
start_request prepare nodes = build_request nodes >>= λ r. schedule_all prepare r.tasks r

-- The loop of `_mark_node_completed` over the successors.
unfoldable pub schedule_successors : Preparing → List String → Request → Outcome Request
unfolding schedule_if_ready
schedule_successors prepare [] r = ok r
schedule_successors prepare (name ∷ names) r =
    require (member name r.tasks) key_error
    >> (schedule_if_ready prepare r name >>= schedule_successors prepare names)

-- `_mark_node_completed`
unfoldable pub mark_node_completed : Preparing → Request → String → Outcome Request
unfolding schedule_successors
mark_node_completed prepare r name =
    schedule_successors prepare (get_set name r.node_successors)
      (record r { completed_nodes = add_element name r.completed_nodes })

-- `_is_request_complete`
unfoldable pub is_request_complete : Request → Bool
is_request_complete r = nat_beq (length r.completed_nodes) (length r.tasks)
