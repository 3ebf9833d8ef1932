-- ===== src/Scheduler/Grouping.antt =====
-- `select_tasks_for_grouping` (dynamic_scheduler.py, exclusive_scheduler.py, random_scheduler.py).
pub mod Loop
pub mod Policies
use diflow.Prelude.{
  ℕ, zero, suc, ◌+◌, ◌-◌, ◌/◌, Bool, true, false, Option, none, some, List, [], ◌∷◌, ◌++◌, map,
  String, ltb, leb, nat_beq, length, min, max, if◌then◌else◌, ◌==◌, string_eq, Dict, lookup, insert,
  Outcome, ok, raise, ◌>>=◌, or_raise, key_error, index_error, zero_division, every,
}
use diflow.Scheduler.Task.{
  Task, dynamic_can_group, exclusive_can_group, random_can_group, task_resolution,
}

-- A batch size; `unlimited` is `float("inf")`.
pub data Limit : Type 0 where
  at_most : ℕ → Limit
  unlimited : Limit

-- `size < batch_size`
abbrev pub below : ℕ → Limit → Bool
below size (at_most n) = ltb size n
below size unlimited = true

-- A candidate joins the group, or stays where it is.
abbrev take_task : Task → Outcome (List Task × List Task) → Outcome (List Task × List Task)
take_task t loop = loop >>= λ (group, rest). ok (t ∷ group, rest)

abbrev skip_task : Task → Outcome (List Task × List Task) → Outcome (List Task × List Task)
skip_task t loop = loop >>= λ (group, rest). ok (group, t ∷ rest)

-- The `while` loop, over the tasks from `index` on: the tasks taken, and the tasks left in place.
unfoldable pub gather :
    (Task → Outcome Bool) → Limit → ℕ → List Task → Outcome (List Task × List Task)
gather can limit size [] = ok ([], [])
gather can limit size (t ∷ ready) =
    let taken = take_task t (gather can limit (suc size) ready) in
    let skipped = skip_task t (gather can limit size ready) in
    if below size limit then can t >>= (λ b. if b then taken else skipped) else ok ([], t ∷ ready)

-- `ready_tasks.pop(0)`, then the loop; `limit` sees the first task and the rest.
unfoldable pub group_with :
    (Task → Task → Outcome Bool)
    → (Task → List Task → Outcome Limit)
    → List Task
    → Outcome (List Task × List Task)
unfolding gather
group_with can limit [] = raise index_error
group_with can limit (first ∷ ready) = do
  l ← limit first ready
  (group, rest) ← gather (can first) l 1 ready
  ok (first ∷ group, rest)

-- The model batch configuration: model id to mode to batch size.
abbrev pub BatchConfigs : Type 0
BatchConfigs = Dict String (Dict String ℕ)

-- The batch size of a model in a mode.
unfoldable pub configured_limit : BatchConfigs → String → String → Outcome Limit
configured_limit configs op_id batch_mode = elim (lookup op_id configs) [
  | none ↦ ok (if op_id == "IndexedTensor" then unlimited else at_most 1)
  | some sizes ↦ do n ← or_raise key_error (lookup batch_mode sizes); ok (at_most n)
]

unfoldable pub exclusive_select_tasks : BatchConfigs → List Task → Outcome (List Task × List Task)
unfolding group_with configured_limit
exclusive_select_tasks configs =
    group_with exclusive_can_group
      (λ first ready. configured_limit configs first.workflow_node.op.id "throughput_mode")

unfoldable pub random_select_tasks : BatchConfigs → List Task → Outcome (List Task × List Task)
unfolding group_with configured_limit
random_select_tasks configs =
    group_with random_can_group
      (λ first ready. configured_limit configs first.workflow_node.op.id "throughput_mode")

-- `task_count_dict`
unfoldable pub task_counts : List Task → Dict String ℕ → Dict String ℕ
task_counts [] counts = counts
task_counts (t ∷ ts) counts =
    let op_id = t.workflow_node.op.id in
    task_counts ts (insert op_id (elim (lookup op_id counts) [ none ↦ 1 | some n ↦ n + 1 ]) counts)

-- `math.ceil(count / size)`
unfoldable pub ceil_div : ℕ → ℕ → Outcome ℕ
ceil_div count zero = raise zero_division
ceil_div count (suc n) = ok ((count + n) / suc n)

-- `num_required_workers_latency_mode`
unfoldable pub required_workers : BatchConfigs → Dict String ℕ → ℕ → Outcome ℕ
unfolding ceil_div
required_workers configs [] total = ok total
required_workers configs ((op_id, count) ∷ counts) total = do
  more ← elim (lookup op_id configs) [
    | none ↦ ok count
    | some sizes ↦ do size ← or_raise key_error (lookup "latency_mode" sizes); ceil_div count size
  ]
  required_workers configs counts (total + more)

-- `min(batch_size, profiled_limit)`
unfoldable pub cap_limit : Limit → Option ℕ → Limit
cap_limit limit none = limit
cap_limit (at_most n) (some m) = at_most (min n m)
cap_limit unlimited (some m) = at_most m

-- DynamicScheduler: the batch mode depends on how many workers are available, and the batch size
-- is capped by `profiled_limit`, the largest batch that was measured for the task.
module _ (available : ℕ) (profiled_limit : Task → Option ℕ) (configs : BatchConfigs) where
  unfoldable pub dynamic_limit : Task → List Task → Outcome Limit
  unfolding task_counts required_workers configured_limit cap_limit
  dynamic_limit first ready = do
    needed ← required_workers configs (task_counts ready []) 0
    let batch_mode = if leb needed available then "latency_mode" else "throughput_mode"
    limit ← configured_limit configs first.workflow_node.op.id batch_mode
    ok (cap_limit limit (profiled_limit first))

  unfoldable pub dynamic_select_tasks : List Task → Outcome (List Task × List Task)
  unfolding group_with dynamic_limit
  dynamic_select_tasks = group_with dynamic_can_group dynamic_limit
