-- ===== src/SchedulingCore/State/Choice.antt =====
-- What `select_and_reserve` and `reserve_on_worker` return (scheduling_core.py).
use mathlib.Core.Path.{subst}
use mathlib.Core.List.{Memᴰ}
use diflow.Prelude.{
  ℕ, ◌≡◌, refl, sym, ap, ◌∙◌, true, false, Option, none, some, String, string_eq, nat_eq, lookup,
  Outcome, ok, Bool-cases, inl, inr, key_error, or_raise, >>=-eq-ok, ok-injective, or_raise-eq-ok,
  All, All-map, insert,
}
use diflow.Latency.{Latency, add, is_inf, Le, inf_of_Le}
use diflow.SchedulingCore.Task.{TaskSpec}
use diflow.SchedulingCore.Cost.{CostBreakdown, reserved_latency}
use diflow.SchedulingCore.State.{
  Core, record_reservation, SelectionResult, Best, reserve_best, best_worker, select_and_reserve,
  cost, result_for_reservation,
}
use diflow.SchedulingCore.State.Selection.{IsEligible, Bounds, IsChosen, best_worker-IsChosen}

-- The worker is one of the core's, its queue does not pass the threshold, the cost is its cost for
-- the task and is finite, and no other such worker costs less.
pub record IsBestChoice (s : Core) (task : TaskSpec) (rank : ℕ) (c : CostBreakdown) : Type 0 where
  pub known : Memᴰ rank s.cluster.worker_ranks
  pub eligible : IsEligible s rank
  pub priced : cost s task rank ≡ ok c
  pub finite : is_inf c.total ≡ false
  pub least :
      All
        (λ r. (d : CostBreakdown) → IsEligible s r → cost s task r ≡ ok d → Le c.total d.total)
        s.cluster.worker_ranks

record_reservation_cases :
    (s : Core) (id : String) (rank : ℕ) (c : CostBreakdown) (p : Core × SelectionResult)
    → record_reservation s id rank c ≡ ok p
    → (q : Latency) × (lookup rank s.queue_latencies ≡ some q)
      × (p ≡ (
        record s {
          reservations = insert id (record { worker_rank = rank; cost = c }) s.reservations;
          queue_latencies = insert rank (add q (reserved_latency c)) s.queue_latencies;
        },
        record { worker_rank = rank; cost = c; backend = "python" },
      ))
unfolding record_reservation result_for_reservation
record_reservation_cases s id rank c p e =
    let (q, known, e') = >>=-eq-ok (or_raise key_error (lookup rank s.queue_latencies)) _ e in
    (q, or_raise-eq-ok key_error _ known, sym (ok-injective e'))

-- A run of `select_and_reserve` on a task that is not reserved.
select_cases :
    (s : Core) (task : TaskSpec) (p : Core × Option SelectionResult)
    → lookup task.task_id s.reservations ≡ none
    → select_and_reserve s task ≡ ok p
    → (best : Best) × (best_worker s task s.cluster.worker_ranks none ≡ ok best)
      × (reserve_best s task.task_id best ≡ ok p)
unfolding select_and_reserve
select_cases s task p fresh e =
    >>=-eq-ok (best_worker s task s.cluster.worker_ranks none) _
      (rw (fresh, select_and_reserve) at e)

some-pair :
    (q : Core × SelectionResult) (s' : Core) (res : SelectionResult)
    → ◌≡◌ {A = Outcome (Core × Option SelectionResult)} (ok (q.0, some q.1)) (ok (s', some res))
    → q ≡ (s', res)
some-pair (a, b) s' res e = cc

reserve_best-some :
    (s : Core) (id : String) (best : Best) (s' : Core) (res : SelectionResult)
    → reserve_best s id best ≡ ok (s', some res)
    → (rank : ℕ) × (c : CostBreakdown) × (best ≡ some (rank, c))
      × (is_inf c.total ≡ false)
      × (record_reservation s id rank c ≡ ok (s', res))
unfolding reserve_best
reserve_best-some s id none s' res e = cc
reserve_best-some s id (some (rank, c)) s' res e = elim (Bool-cases (is_inf c.total)) [
  | inl infinite ↦ let e' = rw infinite at e in cc
  | inr finite ↦
      let (q, recorded, e') = >>=-eq-ok (record_reservation s id rank c) _ (rw finite at e) in
      (rank, c, refl, finite, recorded ∙ ap ok (some-pair q s' res e'))
]

IsBestChoice-of_chosen :
    (s : Core) (task : TaskSpec) (rank : ℕ) (c : CostBreakdown)
    → IsChosen s task s.cluster.worker_ranks none (some (rank, c))
    → is_inf c.total ≡ false
    → IsBestChoice s task rank c
IsBestChoice-of_chosen s task rank c ch finite = elim (ch.source rank c refl) [
  | inl old ↦ cc
  | inr (m, eligible, priced) ↦ record {
    known = m;
    eligible = eligible;
    priced = priced;
    finite = finite;
    least = ch.bounds;
  }
]

-- The reservation of `c` on `rank` for the task is recorded, and its time joins the worker's queue.
pub record IsRecorded (s s' : Core) (id : String) (rank : ℕ) (c : CostBreakdown) : Type 0 where
  pub reservation :
      s'.reservations ≡ insert id (record { worker_rank = rank; cost = c }) s.reservations
  pub queue_before : Latency
  pub had_queue : lookup rank s.queue_latencies ≡ some queue_before
  pub queue_after :
      s'.queue_latencies ≡ insert rank (add queue_before (reserved_latency c)) s.queue_latencies

pub record_reservation-IsRecorded :
    (s : Core) (id : String) (rank : ℕ) (c : CostBreakdown) (p : Core × SelectionResult)
    → record_reservation s id rank c ≡ ok p
    → IsRecorded s p.0 id rank c
      × (p.1 ≡ record { worker_rank = rank; cost = c; backend = "python" })
record_reservation-IsRecorded s id rank c p e =
    let (q, known, shape) = record_reservation_cases s id rank c p e in
    (
      subst (λ (x : Core × SelectionResult). IsRecorded s x.0 id rank c) (sym shape)
          (record { reservation = refl; queue_before = q; had_queue = known; queue_after = refl }),
      ap (λ (x : Core × SelectionResult). x.1) shape,
    )

-- A new task that gets a worker gets an eligible one of finite and least cost; the reservation is
-- recorded under the task's id, and its time is added to that worker's queue.
pub select_and_reserve-IsBestChoice :
    (s : Core) (task : TaskSpec) (s' : Core) (res : SelectionResult)
    → lookup task.task_id s.reservations ≡ none
    → select_and_reserve s task ≡ ok (s', some res)
    → IsBestChoice s task res.worker_rank res.cost
      × IsRecorded s s' task.task_id res.worker_rank res.cost
select_and_reserve-IsBestChoice s task s' res fresh e =
    let (best, looped, reserved) = select_cases s task (s', some res) fresh e in
    let (rank, c, found, finite, recorded) =
      reserve_best-some s task.task_id best s' res reserved in
    let (rec, named) = record_reservation-IsRecorded s task.task_id rank c (s', res) recorded in
    let ch = best_worker-IsChosen s task s.cluster.worker_ranks none best looped in
    rw named (
      IsBestChoice-of_chosen s task rank c
          (subst (IsChosen s task s.cluster.worker_ranks none) found ch) finite,
      rec,
    )

reserve_best-none :
    (s : Core) (id : String) (best : Best) (s' : Core)
    → reserve_best s id best ≡ ok (s', none)
    → (s' ≡ s) × ((c : CostBreakdown) → Bounds best c → is_inf c.total ≡ true)
unfolding reserve_best
reserve_best-none s id none s' e =
    (ap (λ (x : Core × Option SelectionResult). x.0) (sym (ok-injective e)), λ c b. absurd b)
reserve_best-none s id (some (rank, c)) s' e = elim (Bool-cases (is_inf c.total)) [
  | inl infinite ↦ (
    ap (λ (x : Core × Option SelectionResult). x.0) (sym (ok-injective (rw infinite at e))),
    λ d b. inf_of_Le c.total d.total b infinite,
  )
  | inr finite ↦
      let (q, recorded, e') = >>=-eq-ok (record_reservation s id rank c) _ (rw finite at e) in cc
]

-- A new task gets no worker only if every eligible worker has infinite cost for it, and the core
-- is then unchanged.
pub select_and_reserve-none :
    (s : Core) (task : TaskSpec) (s' : Core)
    → lookup task.task_id s.reservations ≡ none
    → select_and_reserve s task ≡ ok (s', none)
    → (s' ≡ s)
      × All
          (λ r. (d : CostBreakdown) → IsEligible s r → cost s task r ≡ ok d → is_inf d.total ≡ true)
          s.cluster.worker_ranks
select_and_reserve-none s task s' fresh e =
    let (best, looped, reserved) = select_cases s task (s', none) fresh e in
    let (same, infinite) = reserve_best-none s task.task_id best s' reserved in
    let ch = best_worker-IsChosen s task s.cluster.worker_ranks none best looped in
    (
      same,
      All-map s.cluster.worker_ranks (λ r h d eligible priced. infinite d (h d eligible priced))
          ch.bounds,
    )
