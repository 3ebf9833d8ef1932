-- ===== src/Scheduler/Dynamic.antt =====
-- DynamicScheduler (dynamic_scheduler.py): how a task group is described to the scheduling core.
pub mod Described
pub mod Hosts
pub mod Policy
use diflow.Prelude.{
  ℕ, ◌*◌, Bool, ◌&&◌, ◌||◌, ◌==◌, not, raise, List, [], ◌∷◌, ◌++◌, String, append, nat_eq,
  string_eq, length, Dict, lookup, insert, contains, if◌then◌else◌, none, some, Outcome, ok, ◌>>=◌,
  or_raise, key_error, value_error, index_error,
}
use diflow.Scheduler.Task.{Task, TensorInfo, task_resolution}
use diflow.SchedulingCore.Task.{TaskSpec, check_task_spec}

-- The id of a host name: its number, or the next one if it is new.
abbrev pub host_id : String → Dict String ℕ → ℕ
host_id hostname ids = elim (lookup hostname ids) [ some id ↦ id | none ↦ length ids ]

abbrev pub note_host : String → Dict String ℕ → Dict String ℕ
note_host hostname ids = if contains hostname ids then ids else insert hostname (length ids) ids

-- The loop of `_build_worker_host_ids`, over the workers' host names.
unfoldable pub number_hosts : Dict String ℕ → Dict ℕ ℕ → Dict ℕ String → Dict ℕ ℕ
number_hosts ids hosts [] = hosts
number_hosts ids hosts ((rank, hostname) ∷ workers) =
    number_hosts (note_host hostname ids) (insert rank (host_id hostname ids) hosts) workers

unfoldable pub build_worker_host_ids : Dict ℕ String → Dict ℕ ℕ
unfolding number_hosts
build_worker_host_ids workers = number_hosts [] [] workers

abbrev dtype_bytes_map : Dict String ℕ
dtype_bytes_map =
    ("torch.float32", 4)
    ∷ ("torch.float16", 2)
    ∷ ("torch.bfloat16", 2)
    ∷ ("torch.half", 2)
    ∷ ("torch.int64", 8)
    ∷ ("torch.int32", 4)
    ∷ ("torch.int16", 2)
    ∷ ("torch.int8", 1)
    ∷ ("torch.uint8", 1)
    ∷ ("torch.bool", 1)
    ∷ []

-- `math.prod`
abbrev prod : List ℕ → ℕ
prod [] = 1
prod (n ∷ ns) = n * prod ns

-- `_get_tensor_size_bytes`
unfoldable pub get_tensor_size_bytes : TensorInfo → Outcome ℕ
get_tensor_size_bytes info = or_raise value_error (lookup info.dtype dtype_bytes_map) >>= λ bytes.
    ok (prod info.size * bytes)

-- The four lists that `_build_task_spec` fills.
pub record Sources : Type 0 where
  pub tensor_offsets : List ℕ
  pub worker_ranks : List ℕ
  pub host_ids : List ℕ
  pub sizes_bytes : List ℕ

abbrev pub no_sources : Sources
no_sources = record { tensor_offsets = 0 ∷ []; worker_ranks = []; host_ids = []; sizes_bytes = [] }

abbrev pub push_source : Sources → ℕ → ℕ → ℕ → Sources
push_source s rank host bytes = record s {
  worker_ranks = s.worker_ranks ++ rank ∷ [];
  host_ids = s.host_ids ++ host ∷ [];
  sizes_bytes = s.sizes_bytes ++ bytes ∷ [];
}

-- The innermost loop: the workers that hold one tensor.
unfoldable pub add_sources : Dict ℕ ℕ → Sources → Dict ℕ TensorInfo → Outcome Sources
unfolding get_tensor_size_bytes
add_sources hosts s [] = ok s
add_sources hosts s ((rank, info) ∷ copies) = or_raise key_error (lookup rank hosts) >>= λ host.
    get_tensor_size_bytes info >>= λ bytes. add_sources hosts (push_source s rank host bytes) copies

-- `tensor_offsets.append(len(source_worker_ranks))`
abbrev pub end_tensor : Sources → Sources
end_tensor s = record s { tensor_offsets = s.tensor_offsets ++ length s.worker_ranks ∷ [] }

-- The loop over one task's inputs.
unfoldable pub add_task_inputs :
    Dict ℕ ℕ → Sources → Dict String (Dict ℕ TensorInfo) → Outcome Sources
unfolding add_sources
add_task_inputs hosts s [] = ok s
add_task_inputs hosts s ((name, copies) ∷ tensors) =
    add_sources hosts s copies >>= λ s'. add_task_inputs hosts (end_tensor s') tensors

-- The loop over the group.
unfoldable pub add_tasks : Dict ℕ ℕ → Sources → List Task → Outcome Sources
unfolding add_task_inputs
add_tasks hosts s [] = ok s
add_tasks hosts s (t ∷ group) =
    add_task_inputs hosts s t.node_input_locations >>= λ s'. add_tasks hosts s' group

-- `PROFILE_FREE_MODEL_NAMES`
abbrev profile_free : String → Bool
profile_free id = id == "IndexedTensor" || id == "GuidanceTensor"

-- `get_task_id`
abbrev pub get_task_id : Task → String
get_task_id t = append t.request_id (append "_" t.workflow_node.name)

-- What is written of a group that starts with `first`.
unfoldable pub task_spec : Task → ℕ → Sources → TaskSpec
unfolding task_resolution
task_spec first size s = record {
  task_id = get_task_id first;
  model_name = first.workflow_node.op.id;
  mode = first.workflow_node.mode;
  batch_size = size;
  uses_model_profile =
      not first.workflow_node.op.is_scheduler && not (profile_free first.workflow_node.op.id);
  tensor_offsets = s.tensor_offsets;
  source_worker_ranks = s.worker_ranks;
  source_host_ids = s.host_ids;
  source_sizes_bytes = s.sizes_bytes;
  height = (task_resolution first).0;
  width = (task_resolution first).1;
}

-- `_build_task_spec`, with `__post_init__` of the TaskSpec it builds.
unfoldable pub build_task_spec : Dict ℕ ℕ → List Task → Outcome TaskSpec
unfolding add_tasks check_task_spec task_spec
build_task_spec hosts [] = raise index_error
build_task_spec hosts (first ∷ group) = add_tasks hosts no_sources (first ∷ group) >>= λ s.
    check_task_spec (task_spec first (length (first ∷ group)) s)
