-- ===== src/Scheduler/Exclusive.antt =====
-- ExclusiveScheduler (diflow/backend/scheduler/exclusive_scheduler.py): one request to a worker.
pub mod Pairing
use diflow.Prelude.{
  ℕ, Bool, true, false, Option, none, some, List, [], ◌∷◌, map, String, if◌then◌else◌, ◌==◌,
  string_eq, nat_eq, Dict, keys, lookup, insert, erase, contains, is_some, Outcome, ok, raise,
  ◌>>=◌, or_raise, key_error, unbound_local,
}

-- `all_workers_info` gives the ranks; `worker_request` is the field "request_id" of each worker's
-- status.
pub record Exclusive : Type 0 where
  pub workers : List ℕ
  pub request_worker_map : Dict String ℕ
  pub worker_request : Dict ℕ (Option String)

abbrev pub idle : ℕ → ℕ × Option String
idle w = (w, none)

-- `__init__`, with `_initialize_custom_worker_status`.
unfoldable pub init : List ℕ → Exclusive
init workers = record {
  workers = workers;
  request_worker_map = [];
  worker_request = map idle workers;
}

-- The loop over workers: the first whose request is None.
unfoldable pub first_free : List ℕ → Dict ℕ (Option String) → Outcome (Option ℕ)
first_free [] status = ok none
first_free (w ∷ ws) status = do
  request ← or_raise key_error (lookup w status)
  elim request [ none ↦ ok (some w) | some _ ↦ first_free ws status ]

unfoldable pub check_worker_availability : Exclusive → String → Outcome Bool
unfolding first_free
check_worker_availability s request_id =
    if contains request_id s.request_worker_map
    then ok true
    else do free ← first_free s.workers s.worker_request; ok (is_some free)

-- Where the loop finds no free worker, the name `selected_worker_rank` was never bound.
unfoldable pub select_worker : Exclusive → String → Outcome (Exclusive × ℕ)
unfolding first_free
select_worker s request_id = elim (lookup request_id s.request_worker_map) [
  | some w ↦ ok (s, w)
  | none ↦ do
    free ← first_free s.workers s.worker_request
    w ← or_raise unbound_local free
    ok (
      record s {
        request_worker_map = insert request_id w s.request_worker_map;
        worker_request = insert w (some request_id) s.worker_request;
      },
      w,
    )
]

unfoldable pub cleanup_request : Exclusive → String → Exclusive
cleanup_request s request_id = elim (lookup request_id s.request_worker_map) [
  | none ↦ s
  | some w ↦ record s {
    request_worker_map = erase request_id s.request_worker_map;
    worker_request = insert w none s.worker_request;
  }
]
