-- ===== src/SchedulingCore/Cost.antt =====
-- The cost of a task on a worker: `_transfer_latency` and `_cost` (scheduling_core.py).
use diflow.Prelude.{
  ℕ, zero, suc, ◌-◌, Option, none, some, List, [], ◌∷◌, String, nat_beq, if◌then◌else◌, ◌==◌,
  string_eq, nat_eq, Dict, lookup, Outcome, ok, key_error, ◌>>=◌, or_raise, at, some_of,
}
use diflow.Latency.{Latency, fin, inf, add}
use diflow.SchedulingCore.Profile.{
  TransferProfile, ModelProfile, lookup_transfer_latency, lookup_execution_latency,
}
use diflow.SchedulingCore.Task.{TaskSpec}

pub record CostBreakdown : Type 0 where
  pub queue : Latency
  pub transfer : Latency
  pub loading : Latency
  pub execution : Latency
  pub total : Latency

unfoldable pub reserved_latency : CostBreakdown → Latency
unfolding add
reserved_latency cost = add (add cost.transfer cost.loading) cost.execution

-- What `_cost` reads of the core.
pub record Cluster : Type 0 where
  pub worker_ranks : List ℕ
  pub worker_host_ids : Dict ℕ ℕ
  pub model_profiles : Dict String ModelProfile
  pub intra_profile : TransferProfile
  pub inter_profile : TransferProfile
  pub worker_latency_threshold : Latency

-- The first source on the worker's host, among `count` from `index` on.
unfoldable pub find_host : List ℕ → ℕ → ℕ → ℕ → Outcome (Option ℕ)
find_host hosts dst zero index = ok none
find_host hosts dst (suc count) index = do
  host ← at hosts index
  if host == dst then ok (some index) else find_host hosts dst count (suc index)

abbrev or_begin : Option ℕ → ℕ → ℕ
or_begin none begin = begin
or_begin (some index) begin = index

-- One round of the loop over tensors: the latency so far, and with this tensor.
unfoldable pub add_tensor : Cluster → TaskSpec → ℕ → ℕ → ℕ → ℕ → Latency → Outcome Latency
unfolding add find_host lookup_transfer_latency
add_tensor c task worker_rank dst begin end latency = if nat_beq begin end then ok latency else do
  found ← find_host task.source_host_ids dst (end - begin) begin
  let selected = or_begin found begin
  source ← at task.source_worker_ranks selected
  if source == worker_rank then ok latency else do
    host ← at task.source_host_ids selected
    size ← at task.source_sizes_bytes selected
    l ← lookup_transfer_latency size (if host == dst then c.intra_profile else c.inter_profile)
    ok (add latency l)

-- The loop over neighbouring offsets.
unfoldable pub add_tensors : Cluster → TaskSpec → ℕ → ℕ → List ℕ → Latency → Outcome Latency
unfolding add_tensor
add_tensors c task worker_rank dst [] latency = ok latency
add_tensors c task worker_rank dst (begin ∷ []) latency = ok latency
add_tensors c task worker_rank dst (begin ∷ end ∷ offsets) latency = do
  latency' ← add_tensor c task worker_rank dst begin end latency
  add_tensors c task worker_rank dst (end ∷ offsets) latency'

-- `_transfer_latency`
unfoldable pub transfer_latency : Cluster → TaskSpec → ℕ → Outcome Latency
unfolding add_tensors
transfer_latency c task worker_rank = do
  dst ← or_raise key_error (lookup worker_rank c.worker_host_ids)
  add_tensors c task worker_rank dst task.tensor_offsets (fin 0)

-- Loading and execution, for a task whose model is profiled.
unfoldable pub model_latencies : Cluster → TaskSpec → List String → Outcome (Latency × Latency)
unfolding lookup_execution_latency
model_latencies c task active =
    if task.uses_model_profile
    then elim (lookup task.model_name c.model_profiles) [
      | none ↦ ok (inf, inf)
      | some profile ↦ do
        execution ←
            lookup_execution_latency profile task.mode task.batch_size task.height task.width
        ok (
          if some_of (λ m. m == task.model_name) active then fin 0 else profile.loading_latency,
          execution,
        )
    ]
    else ok (fin 0, fin 0)

-- `_cost`, given what the core knows of the worker: its queue and its active models.
unfoldable pub cost_on : Cluster → TaskSpec → ℕ → Latency → List String → Outcome CostBreakdown
unfolding add transfer_latency model_latencies
cost_on c task worker_rank queue active = do
  transfer ← transfer_latency c task worker_rank
  (loading, execution) ← model_latencies c task active
  ok (record {
    queue = queue;
    transfer = transfer;
    loading = loading;
    execution = execution;
    total = add queue (add (add transfer loading) execution);
  })
