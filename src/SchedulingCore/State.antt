-- ===== src/SchedulingCore/State.antt =====
-- PythonSchedulingCore (scheduling_core.py): the queue estimate of each worker and the reservations.
pub mod Balance
pub mod Selection
pub mod Choice
pub mod Lifecycle
use diflow.Prelude.{
  ℕ, suc, Bool, true, false, Option, none, some, List, [], ◌∷◌, map, String, nat_beq, length,
  if◌then◌else◌, ◌==◌, string_eq, nat_eq, Dict, keys, lookup, insert, erase, contains, Outcome, ok,
  raise, value_error, key_error, ◌>>=◌, ◌>>◌, require, or_raise, not,
}
use diflow.Latency.{Latency, fin, add, sub_or_zero, less, less_eq, is_inf}
use diflow.SchedulingCore.Profile.{TransferProfile, ModelProfile}
use diflow.SchedulingCore.Task.{TaskSpec}
use diflow.SchedulingCore.Cost.{CostBreakdown, reserved_latency, Cluster, cost_on}

pub record SelectionResult : Type 0 where
  pub worker_rank : ℕ
  pub cost : CostBreakdown
  pub backend : String

pub record Reservation : Type 0 where
  pub worker_rank : ℕ
  pub cost : CostBreakdown

pub record Core : Type 0 where
  pub cluster : Cluster
  pub active_models : Dict ℕ (List String)
  pub queue_latencies : Dict ℕ Latency
  pub reservations : Dict String Reservation

abbrev or_empty : Option (List String) → List String
or_empty none = []
or_empty (some models) = models

-- `__init__`
unfoldable pub init :
    Dict ℕ ℕ
    → Dict ℕ (List String)
    → Dict String ModelProfile
    → TransferProfile
    → TransferProfile
    → Latency
    → Outcome Core
init worker_host_ids active_models model_profiles intra inter threshold = do
  let ranks = keys worker_host_ids
  require (not (nat_beq (length worker_host_ids) 0)) value_error
  ok (record {
    cluster = record {
      worker_ranks = ranks;
      worker_host_ids = worker_host_ids;
      model_profiles = model_profiles;
      intra_profile = intra;
      inter_profile = inter;
      worker_latency_threshold = threshold;
    };
    active_models = map (λ rank. (rank, or_empty (lookup rank active_models))) ranks;
    queue_latencies = map (λ rank. (rank, fin 0)) ranks;
    reservations = [];
  })

-- `_cost`
unfoldable pub cost : Core → TaskSpec → ℕ → Outcome CostBreakdown
unfolding cost_on
cost s task worker_rank = do
  queue ← or_raise key_error (lookup worker_rank s.queue_latencies)
  active ← or_raise key_error (lookup worker_rank s.active_models)
  cost_on s.cluster task worker_rank queue active

-- `_result_for_reservation`
unfoldable pub result_for_reservation : Reservation → SelectionResult
result_for_reservation r = record { worker_rank = r.worker_rank; cost = r.cost; backend = "python" }

-- `_record_reservation`
unfoldable pub record_reservation :
    Core → String → ℕ → CostBreakdown → Outcome (Core × SelectionResult)
unfolding reserved_latency result_for_reservation
record_reservation s task_id worker_rank cost = do
  let reservation : Reservation = record { worker_rank = worker_rank; cost = cost }
  queue ← or_raise key_error (lookup worker_rank s.queue_latencies)
  ok (
    record s {
      reservations = insert task_id reservation s.reservations;
      queue_latencies = insert worker_rank (add queue (reserved_latency cost)) s.queue_latencies;
    },
    result_for_reservation reservation,
  )

-- `best_rank` and `best_cost` change together.
abbrev pub Best : Type 0
Best = Option (ℕ × CostBreakdown)

abbrev pub better : Best → ℕ → CostBreakdown → Best
better none rank c = some (rank, c)
better (some (best_rank, best_cost)) rank c =
    if less c.total best_cost.total then some (rank, c) else some (best_rank, best_cost)

-- One round of the selection loop.
unfoldable pub consider : Core → TaskSpec → ℕ → Best → Outcome Best
unfolding cost
consider s task rank best = do
  queue ← or_raise key_error (lookup rank s.queue_latencies)
  if less s.cluster.worker_latency_threshold queue
      then ok best
      else do c ← cost s task rank; ok (better best rank c)

unfoldable pub best_worker : Core → TaskSpec → List ℕ → Best → Outcome Best
unfolding consider
best_worker s task [] best = ok best
best_worker s task (rank ∷ ranks) best = do
  best' ← consider s task rank best
  best_worker s task ranks best'

-- The end of `select_and_reserve`: nothing, or a reservation on the best worker.
unfoldable pub reserve_best : Core → String → Best → Outcome (Core × Option SelectionResult)
unfolding record_reservation
reserve_best s task_id none = ok (s, none)
reserve_best s task_id (some (rank, c)) =
    if is_inf c.total
    then ok (s, none)
    else do (s', result) ← record_reservation s task_id rank c; ok (s', some result)

unfoldable pub select_and_reserve : Core → TaskSpec → Outcome (Core × Option SelectionResult)
unfolding best_worker reserve_best result_for_reservation
select_and_reserve s task = elim (lookup task.task_id s.reservations) [
  | some existing ↦ ok (s, some (result_for_reservation existing))
  | none ↦ do
    best ← best_worker s task s.cluster.worker_ranks none
    reserve_best s task.task_id best
]

unfoldable pub reserve_on_worker : Core → TaskSpec → ℕ → Outcome (Core × SelectionResult)
unfolding record_reservation cost result_for_reservation
reserve_on_worker s task worker_rank = do
  require (contains worker_rank s.cluster.worker_host_ids) value_error
  elim (lookup task.task_id s.reservations) [
    | some existing ↦
        if existing.worker_rank == worker_rank
        then ok (s, result_for_reservation existing)
        else raise value_error
    | none ↦ do c ← cost s task worker_rank; record_reservation s task.task_id worker_rank c
  ]

-- The sum of what is reserved on a worker, over the reservations in order.
unfoldable pub reserved_on : ℕ → Dict String Reservation → Latency
unfolding reserved_latency
reserved_on rank [] = fin 0
reserved_on rank ((id, r) ∷ rs) =
    if r.worker_rank == rank
    then add (reserved_latency r.cost) (reserved_on rank rs)
    else reserved_on rank rs

-- The queue of a worker without the popped reservation `r`; `rest` holds the other reservations.
unfoldable pub settle : Dict String Reservation → Reservation → Latency → Latency
unfolding reserved_on reserved_latency
settle rest r queue =
    if is_inf (reserved_latency r.cost)
    then reserved_on r.worker_rank rest
    else sub_or_zero queue (reserved_latency r.cost)

-- `complete`, after the reservation is popped.
unfoldable pub release : Core → Reservation → Outcome Core
unfolding settle
release s r = do
  queue ← or_raise key_error (lookup r.worker_rank s.queue_latencies)
  ok (record s {
    queue_latencies = insert r.worker_rank (settle s.reservations r queue) s.queue_latencies;
  })

unfoldable pub complete : Core → String → Outcome (Core × Bool)
unfolding release
complete s task_id = elim (lookup task_id s.reservations) [
  | none ↦ ok (s, false)
  | some r ↦ do
    s' ← release (record s { reservations = erase task_id s.reservations }) r
    ok (s', true)
]

unfoldable pub update_active_models : Core → ℕ → List String → Outcome Core
update_active_models s worker_rank models = do
  require (contains worker_rank s.active_models) value_error
  ok (record s { active_models = insert worker_rank models s.active_models })

-- `sum(latency <= threshold for latency in queue_latencies.values())`
unfoldable pub count_available : Latency → Dict ℕ Latency → ℕ
count_available threshold [] = 0
count_available threshold ((rank, q) ∷ qs) =
    if less_eq q threshold then suc (count_available threshold qs) else count_available threshold qs

unfoldable pub available_worker_count : Core → ℕ
unfolding count_available
available_worker_count s = count_available s.cluster.worker_latency_threshold s.queue_latencies
