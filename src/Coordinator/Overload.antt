-- ===== src/Coordinator/Overload.antt =====
-- `_is_system_overloaded` (coordinator.py): the admission of a request with a deadline. Latencies
-- are whole microseconds; the quotient of the source, the work shared among the executors, is
-- compared by multiplication. `execution_latency` is the method of the runtime profile.
pub mod Planned
use diflow.Prelude.{
  ℕ, ◌+◌, ◌*◌, Bool, true, false, not, ◌||◌, Option, none, some, List, [], ◌∷◌, String, string_eq,
  if◌then◌else◌, ltb, nat_beq, length, max, Dict, Outcome, ok, ◌>>=◌, or_raise, value_error, member,
}
use diflow.Json.{ℤ, pos, negsuc}
use diflow.Scheduler.Task.{Task}

abbrev pub LatencyOf : Type 0
LatencyOf = String → String → ℕ → ℕ → ℕ → Outcome ℕ

-- A request that has arrived, once its tasks are there.
pub record Inflight : Type 0 where
  pub tasks : Dict String Task
  pub completed_nodes : List String

-- The estimate of a single task; `int` refuses a height or width that is absent here.
unfoldable pub task_latency : LatencyOf → Task → Outcome ℕ
task_latency execution_latency task = or_raise value_error task.height >>= λ height.
    or_raise value_error task.width >>= λ width.
    execution_latency task.workflow_node.op.id task.workflow_node.mode 1 height width

-- The inner loop: the latencies of the tasks that are not completed.
unfoldable pub waiting_latencies : LatencyOf → List String → Dict String Task → Outcome (List ℕ)
unfolding task_latency
waiting_latencies execution_latency completed [] = ok []
waiting_latencies execution_latency completed ((name, task) ∷ tasks) =
    let rest = waiting_latencies execution_latency completed tasks in
    if member name completed
    then rest
    else (task_latency execution_latency task >>= λ l. rest >>= λ ls. ok (l ∷ ls))

-- The outer loop; a request between its arrival and the set-up of its tasks is skipped.
unfoldable pub waiting_task_latencies :
    LatencyOf → Dict String (Option Inflight) → Outcome (Dict String (List ℕ))
unfolding waiting_latencies
waiting_task_latencies execution_latency [] = ok []
waiting_task_latencies execution_latency ((request, none) ∷ requests) =
    waiting_task_latencies execution_latency requests
waiting_task_latencies execution_latency ((request, some r) ∷ requests) =
    waiting_latencies execution_latency r.completed_nodes r.tasks >>= λ ls.
    waiting_task_latencies execution_latency requests >>= λ rest. ok ((request, ls) ∷ rest)

unfoldable pub sum : List ℕ → ℕ
sum [] = 0
sum (l ∷ ls) = l + sum ls

unfoldable pub total_work : Dict String (List ℕ) → ℕ
unfolding sum
total_work [] = 0
total_work ((request, ls) ∷ rest) = sum ls + total_work rest

unfoldable pub max_request_work : Dict String (List ℕ) → ℕ
unfolding sum
max_request_work [] = 0
max_request_work ((request, ls) ∷ rest) = max (sum ls) (max_request_work rest)

-- `calculate_request_completion_time(...) > slo_slack`: infinity without executors, else the larger
-- of the shared work and of the longest request.
unfoldable pub completion_exceeds : Dict String (List ℕ) → ℕ → ℤ → Bool
unfolding total_work max_request_work
completion_exceeds latencies executors (negsuc n) = true
completion_exceeds latencies executors (pos slack) =
    nat_beq executors 0
    || (ltb (executors * slack) (total_work latencies) || ltb slack (max_request_work latencies))

-- `_is_system_overloaded`
unfoldable pub is_system_overloaded :
    LatencyOf → Bool → ℕ → Dict String (Option Inflight) → Option ℤ → Outcome Bool
unfolding waiting_task_latencies completion_exceeds
is_system_overloaded execution_latency enable_early_abort executors requests none = ok false
is_system_overloaded execution_latency enable_early_abort executors requests (some slack) =
    if not enable_early_abort
    then ok false
    else (waiting_task_latencies execution_latency requests >>= λ latencies. ok (
        if ltb (length latencies) executors
        then false
        else completion_exceeds latencies executors slack))
