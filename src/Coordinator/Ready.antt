-- ===== src/Coordinator/Ready.antt =====
-- `_prepare_ready_tasks` (coordinator.py): the tasks that the scheduler takes next, those of the
-- oldest request first, and within a request the deepest node first. Times are whole microseconds.
pub mod Ordered
use diflow.Prelude.{
  ℕ, Bool, ◌&&◌, ◌||◌, Option, none, some, List, [], ◌∷◌, ◌++◌, String, string_eq, if◌then◌else◌,
  ltb, nat_beq, every, is_some, Dict, lookup, Outcome, ok, ◌>>◌, require, key_error,
}
use diflow.Scheduler.Task.{Task}

pub record Queues : Type 0 where
  pub ready_tasks : List Task
  -- oldest first
  pub task_queue : List Task

-- The arrival of a request, and the depth of a node of it.
pub record Ranks : Type 0 where
  pub request_arrival_times : Dict String ℕ
  pub node_depth : Dict String (Dict String ℕ)

-- The parts of the key that `sort` is given: the arrival, and the depth that it negates.
unfoldable pub task_key : Ranks → Task → Option (ℕ × ℕ)
task_key ranks task = elim (lookup task.request_id ranks.request_arrival_times) [
  | none ↦ none
  | some arrival ↦ elim (lookup task.request_id ranks.node_depth) [
    | none ↦ none
    | some depths ↦ elim (lookup task.workflow_node.name depths) [
      | none ↦ none
      | some depth ↦ some (arrival, depth)
    ]
  ]
]

-- A missing key is refused before the first comparison.
abbrev pub key_of : Ranks → Task → ℕ × ℕ
key_of ranks task = elim (task_key ranks task) [ none ↦ (0, 0) | some key ↦ key ]

-- `<` on the keys.
abbrev pub before : ℕ × ℕ → ℕ × ℕ → Bool
before (arrival, depth) (arrival', depth') =
    ltb arrival arrival' || (nat_beq arrival arrival' && ltb depth' depth)

-- `list.sort` is stable: an element is put before those that are not less.
unfoldable pub insert_task : Ranks → Task → List Task → List Task
insert_task ranks t [] = t ∷ []
insert_task ranks t (u ∷ us) =
    if before (key_of ranks u) (key_of ranks t) then u ∷ insert_task ranks t us else t ∷ u ∷ us

unfoldable pub sort_tasks : Ranks → List Task → List Task
unfolding insert_task
sort_tasks ranks [] = []
sort_tasks ranks (t ∷ ts) = insert_task ranks t (sort_tasks ranks ts)

-- `_prepare_ready_tasks`; the tasks are sorted only when new ones came.
unfoldable pub prepare_ready_tasks : Ranks → Queues → Outcome Queues
unfolding sort_tasks task_key
prepare_ready_tasks ranks q = elim q.task_queue [
  | [] ↦ ok q
  | t ∷ ts ↦
      require (every (λ u. is_some (task_key ranks u)) (q.ready_tasks ++ t ∷ ts)) key_error
      >> ok (record { ready_tasks = sort_tasks ranks (q.ready_tasks ++ t ∷ ts); task_queue = [] })
]
