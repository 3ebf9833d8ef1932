-- ===== src/Scheduler/DynamicExamples.antt =====
-- A group of two tasks that read tensors on two workers, described to the scheduling core.
use diflow.Prelude.{
  ℕ, ◌≡◌, refl, ◌↔◌, true, false, some, [], ◌∷◌, String, string_eq, nat_eq, ok, raise, key_error,
  value_error, Dict, lookup, insert, erase, add_element, member,
}
use diflow.Latency.{fin, inf}
use diflow.SchedulingCore.Profile.{TransferProfile}
use diflow.SchedulingCore.Cost.{CostBreakdown, Cluster}
use diflow.SchedulingCore.State.{Core}
use diflow.Scheduler.Dynamic.Policy.{
  Dynamic, WorkerStatus, make_dynamic, select_worker_for_task_group,
  update_worker_status_after_scheduling, update_worker_status_after_completion,
}
use diflow.Workflow.{Operator}
use diflow.Scheduler.Task.{Task, TensorInfo}
use diflow.SchedulingCore.Task.{TaskSpec, check_task_spec}
use diflow.Scheduler.Dynamic.{get_tensor_size_bytes, build_task_spec, build_worker_host_ids}
use diflow.Scheduler.Dynamic.Hosts.{build_worker_host_ids_iff}
use diflow.Scheduler.Dynamic.Described.{build_task_spec_total}

abbrev decoder : Operator
decoder = record {
  id = "vae";
  patches = [];
  is_scheduler = false;
  op_outputs = [];
  execution_modes = [];
}

abbrev latents : TensorInfo
latents = record { dtype = "torch.float16"; size = 1 ∷ 4 ∷ 64 ∷ [] }

abbrev task : String → Dict String (Dict ℕ TensorInfo) → Task
task request locations = record {
  request_id = request;
  workflow_node = record {
    name = "decode";
    op = decoder;
    mode = "default";
    inputs = [];
    outputs = [];
  };
  height = some 512;
  width = some 512;
  input_map = [];
  lazy_inputs = [];
  node_input_locations = locations;
}

abbrev first : Task
first = task "r1" (("latents", (0, latents) ∷ (1, latents) ∷ []) ∷ [])

abbrev second : Task
second = task "r2" (("latents", (1, latents) ∷ []) ∷ [])

abbrev hosts : Dict ℕ ℕ
hosts = (0, 0) ∷ (1, 5) ∷ []

described :
    build_task_spec hosts (first ∷ second ∷ [])
    ≡ ok (record {
      task_id = "r1_decode";
      model_name = "vae";
      mode = "default";
      batch_size = 2;
      uses_model_profile = true;
      tensor_offsets = 0 ∷ 2 ∷ 3 ∷ [];
      source_worker_ranks = 0 ∷ 1 ∷ 1 ∷ [];
      source_host_ids = 0 ∷ 5 ∷ 5 ∷ [];
      source_sizes_bytes = 512 ∷ 512 ∷ 512 ∷ [];
      height = 512;
      width = 512;
    })
unfolding build_task_spec lookup
described = refl

-- Worker 1 has no host id, or the dtype is not in the table.
unknown_worker : build_task_spec ((0, 0) ∷ []) (first ∷ []) ≡ raise key_error
unfolding build_task_spec lookup
unknown_worker = refl

unknown_dtype :
    get_tensor_size_bytes (record { dtype = "torch.float64"; size = [] }) ≡ raise value_error
unfolding get_tensor_size_bytes lookup
unknown_dtype = refl

build_task_spec_total_example :
    (spec : TaskSpec) × (build_task_spec hosts (first ∷ second ∷ []) ≡ ok spec)
    × (check_task_spec spec ≡ ok spec)
    × (◌≡◌ {A = ℕ} spec.batch_size 2)
unfolding lookup get_tensor_size_bytes
build_task_spec_total_example = build_task_spec_total hosts first (second ∷ []) (
  ((((0, refl), (512, refl)), (((5, refl), (512, refl)), tt)), tt),
  (((((5, refl), (512, refl)), tt), tt), tt),
)

-- Three workers on two hosts.
abbrev workers : Dict ℕ String
workers = (0, "node-a") ∷ (1, "node-b") ∷ (2, "node-a") ∷ []

numbered : build_worker_host_ids workers ≡ (0, 0) ∷ (1, 1) ∷ (2, 0) ∷ []
unfolding build_worker_host_ids lookup insert
numbered = refl

build_worker_host_ids_iff_example :
    (i : ℕ) × (j : ℕ) × (lookup {K = ℕ} 0 (build_worker_host_ids workers) ≡ some i)
    × (lookup {K = ℕ} 2 (build_worker_host_ids workers) ≡ some j)
    × ((i ≡ j) ↔ ◌≡◌ {A = String} "node-a" "node-a")
unfolding lookup
build_worker_host_ids_iff_example =
    build_worker_host_ids_iff workers 0 2 "node-a" "node-a" (refl, (refl, (refl, tt))) refl refl

abbrev profile : TransferProfile
profile = record { block_sizes = 1000 ∷ []; fetch_overheads_us = fin 5 ∷ [] }

abbrev quiet : WorkerStatus
quiet = record { last_ping = 0; task_group = []; active_models = []; gpu_memory_info = [] }

abbrev cluster : Cluster
cluster = record {
  worker_ranks = 0 ∷ 1 ∷ 2 ∷ [];
  worker_host_ids = (0, 0) ∷ (1, 1) ∷ (2, 0) ∷ [];
  model_profiles = [];
  intra_profile = profile;
  inter_profile = profile;
  worker_latency_threshold = fin 100;
}

abbrev idle_core : Core
idle_core = record {
  cluster = cluster;
  active_models = (0, []) ∷ (1, []) ∷ (2, []) ∷ [];
  queue_latencies = (0, fin 0) ∷ (1, fin 0) ∷ (2, fin 0) ∷ [];
  reservations = [];
}

abbrev idle : Dynamic
idle = record {
  worker_status = (0, quiet) ∷ (1, quiet) ∷ (2, quiet) ∷ [];
  worker_host_ids = (0, 0) ∷ (1, 1) ∷ (2, 0) ∷ [];
  scheduling_core = idle_core;
}

abbrev unknown_cost : CostBreakdown
unknown_cost = record {
  queue = fin 0;
  transfer = fin 0;
  loading = inf;
  execution = inf;
  total = inf;
}

-- The model was never profiled: the task went to worker 1 at random, for an unknown time.
abbrev busy : Dynamic
busy = record idle {
  scheduling_core = record idle_core {
    queue_latencies = (0, fin 0) ∷ (1, inf) ∷ (2, fin 0) ∷ [];
    reservations = ("r1_decode", record { worker_rank = 1; cost = unknown_cost }) ∷ [];
  };
}

abbrev sent : Dynamic
sent = record busy {
  worker_status =
      (0, quiet) ∷ (1, record quiet { task_group = "r1_decode" ∷ [] }) ∷ (2, quiet) ∷ [];
}

abbrev reported : WorkerStatus
reported = record {
  last_ping = 7;
  task_group = [];
  active_models = "vae" ∷ [];
  gpu_memory_info = [];
}

abbrev done : Dynamic
done = record idle {
  worker_status = (0, quiet) ∷ (1, reported) ∷ (2, quiet) ∷ [];
  scheduling_core = record idle_core { active_models = (0, []) ∷ (1, "vae" ∷ []) ∷ (2, []) ∷ [] };
}

made : make_dynamic workers [] profile profile (fin 100) ≡ ok idle
unfolding make_dynamic lookup insert
made = refl

at_random :
    select_worker_for_task_group (λ ranks. ok 1) idle (first ∷ [])
    ≡ ok (busy, record { worker_rank = 1; cost = unknown_cost; backend = "python" })
unfolding select_worker_for_task_group lookup insert
at_random = refl

noted : update_worker_status_after_scheduling busy 1 (first ∷ []) ≡ ok sent
unfolding update_worker_status_after_scheduling lookup insert add_element member
noted = refl

completed :
    update_worker_status_after_completion 7 sent 1 ("vae" ∷ []) [] (some "r1_decode") ≡ ok done
unfolding update_worker_status_after_completion lookup insert erase
completed = refl
