-- ===== src/Coordinator/Lazy.antt =====
-- The lazy inputs of a request (coordinator.py): a task is sent before they are there, and the worker
-- is told of each when it arrives. The dictionaries are the entries of one request; a socket takes
-- every message.
pub mod Awake
pub mod Sent
pub mod Given
pub mod Notified
pub mod Told
use diflow.Prelude.{
  ℕ, Bool, ◌&&◌, Option, none, some, List, [], ◌∷◌, ◌++◌, String, ◌==◌, string_eq, nat_eq, nat_beq,
  if◌then◌else◌, some_of, Dict, lookup, insert, erase, Outcome, ok, raise, ◌>>=◌, or_raise,
  key_error, ◌||◌, length, is_some, require, ◌>>◌,
}
use diflow.Scheduler.Task.{TensorInfo}
use diflow.Coordinator.Inputs.{Prepared}

-- The message `lazy_arrival`, and the worker it goes to.
pub record Arrival : Type 0 where
  pub to_worker : ℕ
  pub tensor_id : String
  pub worker_rank : ℕ
  pub tensor_info : TensorInfo

pub record Lazy : Type 0 where
  -- none while no tensor of the request is stored
  pub tensor_map : Option (Dict String (Dict ℕ TensorInfo))
  -- tensor -> the nodes that wait for it, each with its worker
  pub lazy_input_dependents : Dict String (List (String × ℕ))
  -- the calls of `_notify_lazy_input_available` that the event loop has not run, oldest first
  pub notifying : List (String × ℕ)
  pub sent : List Arrival

-- The entry of the request, which is made empty where it is missing.
abbrev pub arrived : Option (Dict String (Dict ℕ TensorInfo)) → Dict String (Dict ℕ TensorInfo)
arrived none = []
arrived (some tensors) = tensors

unfoldable pub copies_of : String → Dict String (Dict ℕ TensorInfo) → Dict ℕ TensorInfo
copies_of tensor tensors = elim (lookup tensor tensors) [ none ↦ [] | some copies ↦ copies ]

unfoldable pub store_tensor : ℕ → String → TensorInfo → Lazy → Lazy
unfolding copies_of
store_tensor rank tensor info s = record s {
  tensor_map = some (
      insert tensor (insert rank info (copies_of tensor (arrived s.tensor_map)))
        (arrived s.tensor_map));
  notifying = s.notifying ++ ((tensor, rank) ∷ []);
}

-- The loops over `tensor_infos` in `_gather_result_loop`, for the tensors that a worker reports.
unfoldable pub store_tensors : ℕ → Dict String TensorInfo → Lazy → Lazy
unfolding store_tensor
store_tensors rank [] s = s
store_tensors rank ((tensor, info) ∷ infos) s =
    store_tensors rank infos (store_tensor rank tensor info s)

unfoldable pub waiting_for : String → Dict String (List (String × ℕ)) → List (String × ℕ)
waiting_for tensor dependents = elim (lookup tensor dependents) [
  | none ↦ []
  | some waiting ↦ waiting
]

abbrev pub same_waiter : String × ℕ → String × ℕ → Bool
same_waiter (node, rank) (other, place) = node == other && nat_beq rank place

-- `.add(...)` on a set of nodes with their workers
unfoldable pub add_waiter : String × ℕ → List (String × ℕ) → List (String × ℕ)
add_waiter w waiting = if some_of (same_waiter w) waiting then waiting else waiting ++ (w ∷ [])

unfoldable pub add_dependent : String → ℕ → String → Lazy → Lazy
unfolding waiting_for add_waiter
add_dependent node rank tensor s = record s {
  lazy_input_dependents =
      insert tensor (add_waiter (node, rank) (waiting_for tensor s.lazy_input_dependents))
        s.lazy_input_dependents;
}

-- The loop over the lazy inputs in `_schedule_task_group`: those that have arrived get their
-- copies, for the others the node is to be told. Gives the locations of the task and its lazy inputs
-- that are left.
unfoldable pub give_lazy_inputs :
    String
    → ℕ
    → Dict String String
    → Dict String (Dict ℕ TensorInfo)
    → Lazy
    → (Dict String (Dict ℕ TensorInfo) × Dict String String) × Lazy
unfolding add_dependent
give_lazy_inputs node rank [] locations s = ((locations, []), s)
give_lazy_inputs node rank ((name, tensor) ∷ inputs) locations s =
    elim (lookup tensor (arrived s.tensor_map)) [
      | some copies ↦ give_lazy_inputs node rank inputs (insert name copies locations) s
      | none ↦
          let rest =
            give_lazy_inputs node rank inputs locations (add_dependent node rank tensor s) in
          ((rest.0.0, (name, tensor) ∷ rest.0.1), rest.1)
    ]

-- The lazy inputs in `_schedule_task_group`. `tensor_map[request_id]` is read for the first one,
-- before anything is changed; while no tensor of the request is stored, this is a KeyError, which is
-- caught and logged, and the task is not sent.
unfoldable pub send_lazy_inputs :
    String
    → ℕ
    → Dict String String
    → Dict String (Dict ℕ TensorInfo)
    → Lazy
    → Outcome ((Dict String (Dict ℕ TensorInfo) × Dict String String) × Lazy)
unfolding give_lazy_inputs
send_lazy_inputs node rank inputs locations s =
    require (nat_beq (length inputs) 0 || is_some s.tensor_map) key_error
    >> ok (give_lazy_inputs node rank inputs locations s)

-- The task as `_schedule_task_group` puts it into the message.
unfoldable pub send_task :
    {V : Type 0} → String → ℕ → Prepared V → Lazy → Outcome (Prepared V × Lazy)
unfolding send_lazy_inputs
send_task node rank p s = send_lazy_inputs node rank p.lazy_inputs p.node_input_locations s >>= λ r.
    ok (record p { node_input_locations = r.0.0; lazy_inputs = r.0.1 }, r.1)

-- The loop of `_notify_lazy_input_available`.
unfoldable pub notifications :
    String → ℕ → Dict String (Dict ℕ TensorInfo) → List (String × ℕ) → Outcome (List Arrival)
notifications tensor rank tensors [] = ok []
notifications tensor rank tensors ((node, worker) ∷ waiting) =
    or_raise key_error (lookup tensor tensors) >>= λ copies.
    or_raise key_error (lookup rank copies) >>= λ info.
    notifications tensor rank tensors waiting >>= λ rest. ok (
      record { to_worker = worker; tensor_id = tensor; worker_rank = rank; tensor_info = info }
      ∷ rest)

-- `_notify_lazy_input_available`. An exception is caught and logged; where one is raised, the first
-- lookup raises it, before any message.
unfoldable pub notify_lazy_input_available : String → ℕ → Lazy → Lazy
unfolding notifications
notify_lazy_input_available tensor rank s = elim (lookup tensor s.lazy_input_dependents) [
  | none ↦ s
  | some waiting ↦ elim (notifications tensor rank (arrived s.tensor_map) waiting) [
    | raise error ↦ s
    | ok messages ↦ record s {
      lazy_input_dependents = erase tensor s.lazy_input_dependents;
      sent = s.sent ++ messages;
    }
  ]
]
