-- ===== src/Worker/Inputs.antt =====
-- How `process_task` (worker.py) collects the inputs of a task, and frees tensors before. The data
-- engine is an argument: `fetch` is the tensor that is fetched from another worker, `describe` the
-- information on a stored tensor. The coordinator's JSON turns worker ranks into texts and the
-- worker turns them back; here they stay numbers.
pub mod Single
pub mod Delivered
pub mod Misnamed
use diflow.Prelude.{
  ℕ, Bool, true, false, Option, none, some, List, [], ◌∷◌, String, string_eq, nat_eq, if◌then◌else◌,
  Dict, lookup, insert, erase, contains, Outcome, ok, raise, ◌>>=◌, or_raise, key_error,
  index_error, value_error,
}
use diflow.Workflow.{NodeIo}
use diflow.Scheduler.Task.{TensorInfo}
use diflow.Coordinator.Inputs.{Prepared}

-- What an operator is given: a value, a tensor, or a function that acquires a lazy tensor.
pub data NodeInput (V T : Type 0) : Type 0 where
  value : Option V → NodeInput V T
  tensor : T → NodeInput V T
  lazily : String → NodeInput V T

pub record Engine (T : Type 0) : Type 0 where
  pub fetch : String → TensorInfo → ℕ → T
  pub describe : T → TensorInfo

-- The node's inputs so far, the worker's tensors by request, and the tensors it now holds too.
pub record Collected (V T : Type 0) : Type 0 where
  pub node_inputs : Dict String (NodeInput V T)
  pub tensor_map : Dict String (Dict String T)
  pub tensor_infos : Dict String TensorInfo

module _ {T : Type 0} where
  abbrev pub tensors_of : String → Dict String (Dict String T) → Dict String T
  tensors_of request tensors = elim (lookup request tensors) [ none ↦ [] | some held ↦ held ]

  -- Phase 0: the tensors that the coordinator says are unused are dropped.
  unfoldable pub free_tensors :
      String → List String → Dict String (Dict String T) → Outcome (Dict String (Dict String T))
  free_tensors request [] tensors = ok tensors
  free_tensors request (id ∷ ids) tensors = or_raise key_error (lookup request tensors) >>= λ held.
      free_tensors request ids (insert request (erase id held) tensors)

  unfoldable pub free_all :
      Dict String (List String)
      → Dict String (Dict String T)
      → Outcome (Dict String (Dict String T))
  unfolding free_tensors
  free_all [] tensors = ok tensors
  free_all ((request, ids) ∷ free) tensors = free_tensors request ids tensors >>= free_all free

-- `list(location_dict.keys())[0]`
abbrev pub first_copy : Dict ℕ TensorInfo → Outcome (ℕ × TensorInfo)
first_copy [] = raise index_error
first_copy ((rank, info) ∷ copies) = ok (rank, info)

module _ {V T : Type 0} where
  abbrev pub put : String → NodeInput V T → Collected V T → Collected V T
  put name given c = record c { node_inputs = insert name given c.node_inputs }

  -- A fetched tensor is kept for the request and reported.
  abbrev pub keep : Engine T → String → String → T → Collected V T → Collected V T
  keep engine request id t c = record c {
    tensor_map = insert request (insert id t (tensors_of request c.tensor_map)) c.tensor_map;
    tensor_infos = insert id (engine.describe t) c.tensor_infos;
  }

  unfoldable pub collect_remote :
      Engine T
      → String
      → String
      → String
      → Dict ℕ TensorInfo
      → Collected V T
      → Outcome (Collected V T)
  collect_remote engine request name id copies c = first_copy copies >>= λ (rank, info). ok (
      put name (tensor (engine.fetch id info rank))
        (keep engine request id (engine.fetch id info rank) c))

  unfoldable pub collect_local : String → String → String → Collected V T → Outcome (Collected V T)
  collect_local request name id c = or_raise key_error (lookup request c.tensor_map) >>= λ held.
      or_raise value_error (lookup id held) >>= λ t. ok (put name (tensor t) c)

  unfoldable pub collect_input :
      Engine T → ℕ → String → Prepared V → String → String → Collected V T → Outcome (Collected V T)
  unfolding collect_remote collect_local
  collect_input engine rank request p name id c = elim (lookup name p.node_input_locations) [
    | some copies ↦
        if contains rank copies
        then collect_local request name id c
        else collect_remote engine request name id copies c
    | none ↦ elim (lookup name p.lazy_inputs) [
      | some later ↦ ok (put name (lazily later) c)
      | none ↦ or_raise value_error (lookup name p.node_inputs) >>= λ given.
          ok (put name (value given) c)
    ]
  ]

  -- The loop over the node's inputs.
  unfoldable pub collect_inputs :
      Engine T
      → ℕ
      → String
      → Prepared V
      → Dict String NodeIo
      → Collected V T
      → Outcome (Collected V T)
  unfolding collect_input
  collect_inputs engine rank request p [] c = ok c
  collect_inputs engine rank request p ((name, io) ∷ inputs) c =
      collect_input engine rank request p name io.name c
      >>= collect_inputs engine rank request p inputs
