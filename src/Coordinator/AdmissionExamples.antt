-- ===== src/Coordinator/AdmissionExamples.antt =====
-- The admission of a request, the order of its tasks, and the placement of a denoise scheduler.
use diflow.Prelude.{
  ℕ, suc, ◌≡◌, refl, arith, true, false, Option, none, some, [], ◌∷◌, String, string_eq, Dict,
  IsDict, lookup, insert, member, ok, ◌++◌, select,
}
use diflow.Json.{pos, negsuc}
use diflow.Workflow.{Operator}
use diflow.Scheduler.Task.{Task}
use diflow.Coordinator.Ready.{Queues, Ranks, task_key, prepare_ready_tasks}
use diflow.Coordinator.Ready.Ordered.{InOrder, has_key, prepare_ready_tasks-InOrder}
use diflow.Coordinator.Overload.{
  LatencyOf, Inflight, waiting_task_latencies, sum, is_system_overloaded,
}
use diflow.Coordinator.Overload.Planned.{Plan, units, is_system_overloaded-admits}
use diflow.Coordinator.Placement.{Policy, Placement, select_worker_for_group}
use diflow.Coordinator.Placement.Pinned.{start, call, select_worker_for_group-same}

abbrev op : Operator
op = record {
  id = "euler";
  patches = [];
  is_scheduler = true;
  op_outputs = [];
  execution_modes = [];
}

abbrev task : String → Task
task request = record {
  request_id = request;
  workflow_node = record { name = "step"; op = op; mode = "default"; inputs = []; outputs = [] };
  height = some 512;
  width = some 512;
  input_map = [];
  lazy_inputs = [];
  node_input_locations = [];
}

-- Every task takes two microseconds.
abbrev two_each : LatencyOf
two_each id mode batch height width = ok 2

-- The first request has two tasks to wait for, the second one, the third is being set up.
abbrev waiting : Dict String (Option Inflight)
waiting =
    (
      "r1",
      some (record {
        tasks = ("a", task "r1") ∷ ("b", task "r1") ∷ ("c", task "r1") ∷ [];
        completed_nodes = "a" ∷ [];
      }),
    )
    ∷ ("r2", some (record { tasks = ("a", task "r2") ∷ []; completed_nodes = [] }))
    ∷ ("r3", none)
    ∷ []

latencies : waiting_task_latencies two_each waiting ≡ ok (("r1", 2 ∷ 2 ∷ []) ∷ ("r2", 2 ∷ []) ∷ [])
unfolding waiting_task_latencies member
latencies = refl

-- Two executors need four microseconds, since the tasks of the first request follow one another.
too_late : is_system_overloaded two_each true 2 waiting (some (pos 3)) ≡ ok true
unfolding is_system_overloaded member
too_late = refl

overdue : is_system_overloaded two_each true 2 waiting (some (negsuc 0)) ≡ ok true
unfolding is_system_overloaded member
overdue = refl

idle_executor : is_system_overloaded two_each true 3 waiting (some (pos 0)) ≡ ok false
unfolding is_system_overloaded member
idle_executor = refl

abbrev plan : Plan
plan = ("r1" ∷ "r2" ∷ []) ∷ ("r1" ∷ "r2" ∷ []) ∷ ("r1" ∷ []) ∷ ("r1" ∷ []) ∷ []

waiting-IsDict : IsDict waiting
unfolding lookup
waiting-IsDict = (refl, (refl, (refl, tt)))

is_system_overloaded-admits_example :
    is_system_overloaded two_each true 2 waiting (some (pos 4)) ≡ ok false
unfolding units sum member
is_system_overloaded-admits_example =
    is_system_overloaded-admits two_each true 2 4 waiting (("r1", 2 ∷ 2 ∷ []) ∷ ("r2", 2 ∷ []) ∷ [])
      plan (omega arith) waiting-IsDict latencies (omega arith)
      (
        ((refl, (refl, tt)), omega arith),
        (
          ((refl, (refl, tt)), omega arith),
          (((refl, tt), omega arith), (((refl, tt), omega arith), tt)),
        ),
      )
      (omega arith, (omega arith, tt))

-- A scheduler that gives out the workers in turn.
abbrev in_turn : Policy ℕ
in_turn = record {
  select_worker_for_task_group = λ s group. ok (suc s, s);
  reserve_worker_for_task_group = λ s rank group. ok s;
  update_worker_status_after_scheduling = λ s rank group. ok s;
}

abbrev idle : Placement ℕ
idle = record { scheduler = 0; denoise_scheduler_worker = [] }

abbrev pinned_r1 : ℕ → Placement ℕ
pinned_r1 s = record { scheduler = s; denoise_scheduler_worker = ("r1", 0) ∷ [] }

abbrev pinned_both : ℕ → Placement ℕ
pinned_both s = record { scheduler = s; denoise_scheduler_worker = ("r1", 0) ∷ ("r2", 1) ∷ [] }

first_call : select_worker_for_group in_turn idle (task "r1" ∷ []) ≡ ok (pinned_r1 1, 0)
unfolding select_worker_for_group lookup insert
first_call = refl

other_request :
    select_worker_for_group in_turn (pinned_r1 1) (task "r2" ∷ []) ≡ ok (pinned_both 2, 1)
unfolding select_worker_for_group lookup insert
other_request = refl

again : select_worker_for_group in_turn (pinned_both 2) (task "r1" ∷ []) ≡ ok (pinned_both 2, 0)
unfolding select_worker_for_group lookup insert
again = refl

abbrev first_worker : ℕ
first_worker = 0

select_worker_for_group-same_example : first_worker ≡ 0
select_worker_for_group-same_example =
    select_worker_for_group-same in_turn idle (pinned_r1 1) (pinned_both 2) (pinned_both 2)
      (task "r1") (task "r1") [] [] 0 0 first_call (call (task "r2") [] 1 start other_request) again
      refl refl refl

-- A task of an older request comes after one of a younger request is ready.
abbrev ranks : Ranks
ranks = record {
  request_arrival_times = ("r1", 10) ∷ ("r2", 20) ∷ [];
  node_depth = ("r1", ("step", 3) ∷ []) ∷ ("r2", ("step", 3) ∷ []) ∷ [];
}

abbrev queues : Queues
queues = record { ready_tasks = task "r2" ∷ []; task_queue = task "r1" ∷ [] }

older_first :
    prepare_ready_tasks ranks queues
    ≡ ok (record { ready_tasks = task "r1" ∷ task "r2" ∷ []; task_queue = [] })
unfolding prepare_ready_tasks lookup
older_first = refl

prepare_ready_tasks-InOrder_example :
    (q' : Queues) × (prepare_ready_tasks ranks queues ≡ ok q')
    × (q'.task_queue ≡ [])
    × InOrder ranks q'.ready_tasks
    × ((key : ℕ × ℕ)
        → select (has_key ranks key) q'.ready_tasks
          ≡ select (has_key ranks key) (queues.ready_tasks ++ queues.task_queue))
unfolding task_key lookup
prepare_ready_tasks-InOrder_example = prepare_ready_tasks-InOrder ranks queues (tt, tt) refl
