-- ===== src/Coordinator/Tensors.antt =====
-- The tensors of requests (coordinator.py): how many inputs still read each, which workers hold it,
-- and which ones a worker is told to free. `tensor_reference_count` and `tensor_map` are the entries
-- of one request, `free_tensor_dict` is the whole dictionary.
pub mod Counted
pub mod Released
use diflow.Prelude.{
  ℕ, zero, suc, Bool, true, false, Option, none, some, List, [], ◌∷◌, ◌++◌, map, String, ◌==◌,
  string_eq, nat_eq, if◌then◌else◌, Dict, keys, lookup, insert, Outcome, ok, ◌>>=◌, or_raise,
  key_error,
}
use diflow.Json.{ℤ, pos, negsuc}
use diflow.Workflow.{NodeIo, WorkflowNode}
use diflow.Dependency.{from_request, build_tensor_reference_count}
use diflow.Scheduler.Task.{TensorInfo}

-- worker rank -> request id -> tensors
abbrev pub FreeDict : Type 0
FreeDict = Dict ℕ (Dict String (List String))

pub record Tensors : Type 0 where
  pub tensor_reference_count : Dict String ℤ
  pub tensor_map : Dict String (Dict ℕ TensorInfo)
  pub free_tensor_dict : FreeDict

-- `n - 1`
abbrev pub decrement : ℤ → ℤ
decrement (pos zero) = negsuc zero
decrement (pos (suc n)) = pos n
decrement (negsuc n) = negsuc (suc n)

abbrev pub is_zero : ℤ → Bool
is_zero (pos zero) = true
is_zero (pos (suc n)) = false
is_zero (negsuc n) = false

-- The count that `_build_dependency_graph` starts with.
unfoldable pub start_counts : List WorkflowNode → Dict String ℤ
unfolding build_tensor_reference_count
start_counts nodes = map (λ e. (e.0, pos e.1)) (build_tensor_reference_count nodes)

abbrev pub add_unused : Bool → String → List String → List String
add_unused true name unused = name ∷ unused
add_unused false name unused = unused

-- The first loop of `_update_free_tensor_dict`: the counts, and `unused_tensors`.
unfoldable pub drop_inputs : Dict String NodeIo → Dict String ℤ → Dict String ℤ × List String
drop_inputs [] counts = (counts, [])
drop_inputs ((key, io) ∷ inputs) counts =
    let skipped = drop_inputs inputs counts in
    if from_request io then skipped else elim (lookup io.name counts) [
      | none ↦ skipped
      | some n ↦
          let (counts', unused) = drop_inputs inputs (insert io.name (decrement n) counts) in
          (counts', add_unused (is_zero (decrement n)) io.name unused)
    ]

-- `free_tensor_dict[worker_rank][request_id]`, empty where there is none.
abbrev pub freed : ℕ → String → FreeDict → List String
freed rank request free = elim (lookup rank free) [
  | none ↦ []
  | some requests ↦ elim (lookup request requests) [ none ↦ [] | some tensors ↦ tensors ]
]

abbrev pub requests_of : ℕ → FreeDict → Dict String (List String)
requests_of rank free = elim (lookup rank free) [ none ↦ [] | some requests ↦ requests ]

unfoldable pub add_free : String → String → ℕ → FreeDict → FreeDict
add_free request tensor rank free =
    insert rank (insert request (freed rank request free ++ tensor ∷ []) (requests_of rank free))
      free

-- The loops over the unused tensors and the workers that hold one.
unfoldable pub add_free_on : String → String → List ℕ → FreeDict → FreeDict
unfolding add_free
add_free_on request tensor [] free = free
add_free_on request tensor (rank ∷ ranks) free =
    add_free_on request tensor ranks (add_free request tensor rank free)

unfoldable pub add_free_all :
    String → Dict String (Dict ℕ TensorInfo) → List String → FreeDict → Outcome FreeDict
unfolding add_free_on
add_free_all request tensors [] free = ok free
add_free_all request tensors (tensor ∷ unused) free =
    or_raise key_error (lookup tensor tensors) >>= λ copies.
    add_free_all request tensors unused (add_free_on request tensor (keys copies) free)

-- `_update_free_tensor_dict`, once the node has completed.
unfoldable pub update_free_tensor_dict : String → WorkflowNode → Tensors → Outcome Tensors
unfolding drop_inputs add_free_all
update_free_tensor_dict request node s =
    let (counts, unused) = drop_inputs node.inputs s.tensor_reference_count in
    add_free_all request s.tensor_map unused s.free_tensor_dict >>= λ free.
    ok (record s { tensor_reference_count = counts; free_tensor_dict = free })

-- What `_schedule_task_group` sends to a worker before its next tasks, and no second time.
unfoldable pub take_free : ℕ → Tensors → Option (Dict String (List String)) × Tensors
take_free rank s = elim (lookup rank s.free_tensor_dict) [
  | none ↦ (none, s)
  | some requests ↦
      (some requests, record s { free_tensor_dict = insert rank [] s.free_tensor_dict })
]
