-- ===== src/Scheduler/Dynamic/Policy.antt =====
-- The operations of DynamicScheduler (dynamic_scheduler.py) and what it has from its base
-- (base_scheduler.py). The clock, `random.choice` and the report of a GPU are arguments.
use diflow.Prelude.{
  ℕ, Option, none, some, List, [], ◌∷◌, map, String, nat_eq, string_eq, add_element, select, not,
  ◌==◌, Dict, keys, lookup, insert, Outcome, ok, raise, ◌>>=◌, or_raise, key_error, index_error,
}
use diflow.Latency.{Latency}
use diflow.Scheduler.Task.{Task}
use diflow.Scheduler.Dynamic.{build_worker_host_ids, build_task_spec, get_task_id}
use diflow.SchedulingCore.Profile.{ModelProfile, TransferProfile}
use diflow.SchedulingCore.Task.{TaskSpec}
use diflow.SchedulingCore.State.{
  Core, SelectionResult, init, select_and_reserve, reserve_on_worker, complete,
  update_active_models,
}

pub record WorkerStatus : Type 0 where
  pub last_ping : ℕ
  pub task_group : List String
  pub active_models : List String
  pub gpu_memory_info : Dict String ℕ

pub record Dynamic : Type 0 where
  pub worker_status : Dict ℕ WorkerStatus
  pub worker_host_ids : Dict ℕ ℕ
  pub scheduling_core : Core

-- `_get_default_worker_status`
abbrev default_worker_status : WorkerStatus
default_worker_status = record {
  last_ping = 0;
  task_group = [];
  active_models = [];
  gpu_memory_info = [];
}

-- `__init__`, on the host names of the workers.
unfoldable pub make_dynamic :
    Dict ℕ String
    → Dict String ModelProfile
    → TransferProfile
    → TransferProfile
    → Latency
    → Outcome Dynamic
unfolding build_worker_host_ids init
make_dynamic workers profiles intra inter threshold =
    let hosts = build_worker_host_ids workers in
    init hosts (map (λ rank. (rank, [])) (keys workers)) profiles intra inter threshold >>= λ core.
    ok (record {
      worker_status = map (λ rank. (rank, default_worker_status)) (keys workers);
      worker_host_ids = hosts;
      scheduling_core = core;
    })

-- What was selected, or a reservation on a worker at random.
unfoldable pub or_random :
    (List ℕ → Outcome ℕ)
    → List ℕ
    → TaskSpec
    → Core × Option SelectionResult
    → Outcome (Core × SelectionResult)
unfolding reserve_on_worker
or_random choice ranks task (core, some result) = ok (core, result)
or_random choice ranks task (core, none) = choice ranks >>= λ rank. reserve_on_worker core task rank

unfoldable pub select_worker_for_task_group :
    (List ℕ → Outcome ℕ) → Dynamic → List Task → Outcome (Dynamic × SelectionResult)
unfolding build_task_spec select_and_reserve or_random
select_worker_for_task_group choice d group = build_task_spec d.worker_host_ids group >>= λ task.
    select_and_reserve d.scheduling_core task >>= λ selected.
    or_random choice (keys d.worker_status) task selected >>= λ (core, result).
    ok (record d { scheduling_core = core }, result)

unfoldable pub reserve_worker_for_task_group : Dynamic → ℕ → List Task → Outcome Dynamic
unfolding build_task_spec reserve_on_worker
reserve_worker_for_task_group d worker_rank group =
    build_task_spec d.worker_host_ids group >>= λ task.
    reserve_on_worker d.scheduling_core task worker_rank >>= λ (core, result).
    ok (record d { scheduling_core = core })

abbrev add_task_id : WorkerStatus → String → WorkerStatus
add_task_id status id = record status { task_group = add_element id status.task_group }

unfoldable pub update_worker_status_after_scheduling : Dynamic → ℕ → List Task → Outcome Dynamic
update_worker_status_after_scheduling d worker_rank [] =
    or_raise key_error (lookup worker_rank d.worker_status) >>= λ status. raise index_error
update_worker_status_after_scheduling d worker_rank (first ∷ group) =
    or_raise key_error (lookup worker_rank d.worker_status) >>= λ status. ok (record d {
      worker_status = insert worker_rank (add_task_id status (get_task_id first)) d.worker_status;
    })

-- `status["task_group"].discard(task_id)`, where there is a task.
abbrev discard_task : Option String → List String → List String
discard_task none ids = ids
discard_task (some id) ids = select (λ other. not (other == id)) ids

unfoldable pub complete_task : Option String → Core → Outcome Core
unfolding complete
complete_task none core = ok core
complete_task (some id) core = complete core id >>= λ (core', known). ok core'

unfoldable pub update_worker_status_after_completion :
    ℕ → Dynamic → ℕ → List String → Dict String ℕ → Option String → Outcome Dynamic
unfolding update_active_models complete_task
update_worker_status_after_completion now d worker_rank models memory task_id =
    or_raise key_error (lookup worker_rank d.worker_status) >>= λ status.
    update_active_models d.scheduling_core worker_rank models >>= λ reported.
    complete_task task_id reported >>= λ core. ok (record d {
      worker_status =
          insert worker_rank
            (record {
              last_ping = now;
              task_group = discard_task task_id status.task_group;
              active_models = models;
              gpu_memory_info = memory;
            })
            d.worker_status;
      scheduling_core = core;
    })
