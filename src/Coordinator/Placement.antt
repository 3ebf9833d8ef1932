-- ===== src/Coordinator/Placement.antt =====
-- `_select_worker_for_task_group` (coordinator.py): a worker for a task group, where the denoise
-- scheduler of a request stays on the worker that it was first given.
pub mod Pinned
use diflow.Prelude.{
  ℕ, Bool, true, false, Option, none, some, List, [], ◌∷◌, String, string_eq, if◌then◌else◌,
  nat_beq, length, Dict, lookup, insert, Outcome, ok, raise, ◌>>=◌, ◌>>◌, require, assertion_error,
  index_error,
}
use diflow.Scheduler.Task.{Task}

-- What the coordinator calls of a scheduler with states `S`: every policy fills it.
pub record Policy (S : Type 0) : Type 0 where
  pub select_worker_for_task_group : S → List Task → Outcome (S × ℕ)
  pub reserve_worker_for_task_group : S → ℕ → List Task → Outcome S
  pub update_worker_status_after_scheduling : S → ℕ → List Task → Outcome S

-- The scheduler, and the worker of each request's denoise scheduler.
pub record Placement (S : Type 0) : Type 0 where
  pub scheduler : S
  pub denoise_scheduler_worker : Dict String ℕ

-- The end: the worker is recorded, or must be the recorded one.
unfoldable pub record_worker : Dict String ℕ → Task → ℕ → Outcome (Dict String ℕ)
record_worker pinned task rank =
    if task.workflow_node.op.is_scheduler
    then elim (lookup task.request_id pinned) [
      | none ↦ ok (insert task.request_id rank pinned)
      | some old ↦ require (nat_beq old rank) assertion_error >> ok pinned
    ]
    else ok pinned

module _ {S : Type 0} (policy : Policy S) where
  -- The choice: for a scheduler operation the recorded worker, where there is one.
  unfoldable pub choose_worker : Placement S → Task → List Task → Outcome (S × ℕ)
  choose_worker s task group =
      if task.workflow_node.op.is_scheduler
      then (require (nat_beq (length group) 1) assertion_error
          >> elim (lookup task.request_id s.denoise_scheduler_worker) [
            | some rank ↦
                policy.reserve_worker_for_task_group s.scheduler rank group >>= λ t. ok (t, rank)
            | none ↦ policy.select_worker_for_task_group s.scheduler group
          ])
      else policy.select_worker_for_task_group s.scheduler group

  unfoldable pub select_worker_for_group : Placement S → List Task → Outcome (Placement S × ℕ)
  unfolding choose_worker record_worker
  select_worker_for_group s [] = raise index_error
  select_worker_for_group s (task ∷ group) = choose_worker s task (task ∷ group) >>= λ (t, rank).
      policy.update_worker_status_after_scheduling t rank (task ∷ group) >>= λ u.
      record_worker s.denoise_scheduler_worker task rank >>= λ pinned.
      ok (record { scheduler = u; denoise_scheduler_worker = pinned }, rank)
