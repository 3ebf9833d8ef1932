-- ===== src/SchedulingCore/State/Lifecycle.antt =====
-- A reservation from its recording to its completion, and the core over many operations
-- (scheduling_core.py).
use mathlib.Core.Path.{subst}
use diflow.Prelude.{
  ℕ, ◌≡◌, Bool, Option, none, some, List, [], ◌∷◌, map, arith, String, string_eq, nat_eq, Dict,
  keys, lookup, contains, ok, lookup-insert_self, value_error, require, >>=-eq-ok, ok-injective,
  not, nat_beq, length,
}
use diflow.Latency.{Latency, fin}
use diflow.SchedulingCore.Profile.{ModelProfile, TransferProfile}
use diflow.SchedulingCore.Task.{TaskSpec}
use diflow.SchedulingCore.State.{
  Core, SelectionResult, select_and_reserve, reserve_on_worker, complete, update_active_models,
  init, reserved_on, result_for_reservation,
}
use diflow.SchedulingCore.State.Balance.{
  IsBalanced, select_and_reserve-IsBalanced, reserve_on_worker-IsBalanced, complete-IsBalanced,
}
use diflow.SchedulingCore.State.Choice.{select_and_reserve-IsBestChoice}

-- Asking again for a reserved task gives the recorded worker and cost, and changes nothing.
pub select_and_reserve_again :
    (s : Core) (task : TaskSpec) (s' : Core) (res : SelectionResult)
    → lookup task.task_id s.reservations ≡ none
    → select_and_reserve s task ≡ ok (s', some res)
    → select_and_reserve s' task ≡ ok (s', some (record res { backend = "python" }))
unfolding select_and_reserve result_for_reservation
select_and_reserve_again s task s' res fresh e =
    let (_, rec) = select_and_reserve-IsBestChoice s task s' res fresh e in
    let found : lookup task.task_id s'.reservations
        ≡ some (record { worker_rank = res.worker_rank; cost = res.cost }) =
      rw rec.reservation (lookup-insert_self task.task_id _ s.reservations) in
    rw (found, select_and_reserve)

-- One call of an operation that changes the core.
pub data Step (s : Core) : Core → Type 0 where
  select :
      {s' : Core} (task : TaskSpec) (res : Option SelectionResult)
      → select_and_reserve s task ≡ ok (s', res)
      → Step s s'
  pin :
      {s' : Core} (task : TaskSpec) (rank : ℕ) (res : SelectionResult)
      → reserve_on_worker s task rank ≡ ok (s', res)
      → Step s s'
  finish : {s' : Core} (id : String) (known : Bool) → complete s id ≡ ok (s', known) → Step s s'
  report :
      {s' : Core} (rank : ℕ) (models : List String)
      → update_active_models s rank models ≡ ok s'
      → Step s s'

pub data Reach (s : Core) : Core → Type 0 where
  here : Reach s s
  next : {t u : Core} → Reach s t → Step t u → Reach s u

update_active_models-IsBalanced :
    (s : Core) (rank : ℕ) (models : List String) (s' : Core)
    → IsBalanced s
    → update_active_models s rank models ≡ ok s'
    → IsBalanced s'
unfolding update_active_models
update_active_models-IsBalanced s rank models s' b e =
    let (_, _, e') = >>=-eq-ok (require (contains rank s.active_models) value_error) _ e in
    subst IsBalanced (ok-injective e') b

Step-IsBalanced : {s t : Core} → Step s t → IsBalanced s → IsBalanced t
Step-IsBalanced (select task res e) b = select_and_reserve-IsBalanced _ task _ b e
Step-IsBalanced (pin task rank res e) b = reserve_on_worker-IsBalanced _ task rank _ b e
Step-IsBalanced (finish id known e) b = complete-IsBalanced _ id _ b e
Step-IsBalanced (report rank models e) b = update_active_models-IsBalanced _ rank models _ b e

lookup-zero :
    (rank : ℕ) (ranks : List ℕ) (q : Latency)
    → lookup rank (map (λ r. (r, fin 0)) ranks) ≡ some q
    → q ≡ fin 0
unfolding lookup
lookup-zero rank [] q h = cc
lookup-zero rank (r ∷ ranks) q h = ground (arith, lookup-zero rank ranks q)

init-IsBalanced :
    (hosts : Dict ℕ ℕ) (active : Dict ℕ (List String)) (profiles : Dict String ModelProfile)
    (intra inter : TransferProfile) (threshold : Latency) (s : Core)
    → init hosts active profiles intra inter threshold ≡ ok s
    → IsBalanced s
unfolding init reserved_on
init-IsBalanced hosts active profiles intra inter threshold s e =
    let (_, _, e') = >>=-eq-ok (require (not (nat_beq (length hosts) 0)) value_error) _ e in
    subst IsBalanced (ok-injective e') (record {
      unique = tt;
      queue_sum = λ rank q h. lookup-zero rank (keys hosts) q h;
      on_known = λ id r h. absurd (unfold lookup in cc);
    })

-- From the core's construction on, through any sequence of its operations, each worker's queue
-- estimate is the sum of what is reserved on it, no task is reserved twice, and every reservation
-- stands on a worker that the core knows.
pub Reach-IsBalanced :
    (hosts : Dict ℕ ℕ) (active : Dict ℕ (List String)) (profiles : Dict String ModelProfile)
    (intra inter : TransferProfile) (threshold : Latency) (s t : Core)
    → init hosts active profiles intra inter threshold ≡ ok s
    → Reach s t
    → IsBalanced t
Reach-IsBalanced hosts active profiles intra inter threshold s _ e here =
    init-IsBalanced hosts active profiles intra inter threshold s e
Reach-IsBalanced hosts active profiles intra inter threshold s _ e (next r st) =
    Step-IsBalanced st (Reach-IsBalanced hosts active profiles intra inter threshold s _ e r)
