-- ===== src/SchedulingCore/Examples.antt =====
-- The scheduling core on a cluster of two workers.
use diflow.Prelude.{
  ℕ, ◌≡◌, refl, ◌⊎◌, Bool, true, false, none, some, [], ◌∷◌, ok, string_eq, nat_eq, insert, lookup,
  Dict, erase, contains, get_elem?, length, IsDict,
}
use diflow.Latency.{Latency, fin, inf}
use diflow.SchedulingCore.Profile.{
  TransferProfile, ModelProfile, key_eq, key_beq, shape_key, lookup_transfer_latency,
  lookup_execution_latency, next_power_of_2,
}
use diflow.SchedulingCore.Profile.Transfer.{IsBlock, lookup_transfer_latency-IsBlock}
use diflow.SchedulingCore.Profile.Nearest.{
  IsMeasured, IsNearest, lookup_execution_latency-IsNearest,
}
use diflow.SchedulingCore.Task.{TaskSpec}
use diflow.SchedulingCore.Cost.{CostBreakdown}
use diflow.SchedulingCore.State.{Core, SelectionResult, init, select_and_reserve, complete}
use diflow.SchedulingCore.State.Balance.{IsBalanced, complete_total}
use diflow.SchedulingCore.State.Choice.{IsBestChoice, IsRecorded, select_and_reserve-IsBestChoice}
use diflow.SchedulingCore.State.Lifecycle.{select, Reach, here, next, Reach-IsBalanced}

abbrev intra : TransferProfile
intra = record { block_sizes = 100 ∷ 200 ∷ []; fetch_overheads_us = fin 5 ∷ fin 7 ∷ [] }

abbrev inter : TransferProfile
inter = record { block_sizes = 100 ∷ []; fetch_overheads_us = fin 9 ∷ [] }

abbrev hosts : Dict ℕ ℕ
hosts = (0, 0) ∷ (1, 1) ∷ []

-- Worker 1 is idle and holds the tensor, worker 0 would have to fetch it.
abbrev task : TaskSpec
task = record {
  task_id = "r1_vae";
  model_name = "vae";
  mode = "default";
  batch_size = 1;
  uses_model_profile = false;
  tensor_offsets = 0 ∷ 1 ∷ [];
  source_worker_ranks = 1 ∷ [];
  source_host_ids = 1 ∷ [];
  source_sizes_bytes = 150 ∷ [];
  height = 0;
  width = 0;
}

-- A task of a model that was never profiled.
abbrev unprofiled : TaskSpec
unprofiled = record task { task_id = "r1_dit"; uses_model_profile = true }

abbrev core : Core
core = record {
  cluster = record {
    worker_ranks = 0 ∷ 1 ∷ [];
    worker_host_ids = hosts;
    model_profiles = [];
    intra_profile = intra;
    inter_profile = inter;
    worker_latency_threshold = fin 100;
  };
  active_models = (0, []) ∷ (1, []) ∷ [];
  queue_latencies = (0, fin 0) ∷ (1, fin 0) ∷ [];
  reservations = [];
}

abbrev free : CostBreakdown
free = record { queue = fin 0; transfer = fin 0; loading = fin 0; execution = fin 0; total = fin 0 }

abbrev busy_core : Core
busy_core = record core { reservations = ("r1_vae", record { worker_rank = 1; cost = free }) ∷ [] }

abbrev result : SelectionResult
result = record { worker_rank = 1; cost = free; backend = "python" }

started : init hosts [] [] intra inter (fin 100) ≡ ok core
unfolding init lookup
started = refl

selected : select_and_reserve core task ≡ ok (busy_core, some result)
unfolding select_and_reserve lookup insert
selected = refl

refused : select_and_reserve core unprofiled ≡ ok (core, none)
unfolding select_and_reserve lookup
refused = refl

new : lookup "r1_vae" core.reservations ≡ none
unfolding lookup
new = refl

new_too : lookup "r1_dit" core.reservations ≡ none
unfolding lookup
new_too = refl

run : Reach core busy_core
run = next here (select task (some result) selected)

balanced : IsBalanced core
balanced = Reach-IsBalanced hosts [] [] intra inter (fin 100) core core started here

Reach-IsBalanced_example : IsBalanced busy_core
Reach-IsBalanced_example =
    Reach-IsBalanced hosts [] [] intra inter (fin 100) core busy_core started run

select_and_reserve-IsBestChoice_example :
    IsBestChoice core task 1 free × IsRecorded core busy_core "r1_vae" 1 free
select_and_reserve-IsBestChoice_example =
    select_and_reserve-IsBestChoice core task busy_core result new selected

reached : IsBalanced busy_core
reached = Reach-IsBalanced hosts [] [] intra inter (fin 100) core busy_core started run

complete_total_example :
    (p : Core × Bool) × (complete busy_core "r1_vae" ≡ ok p)
    × (p.1 ≡ contains "r1_vae" busy_core.reservations)
    × (p.0.reservations ≡ erase "r1_vae" busy_core.reservations)
    × IsBalanced p.0
complete_total_example = complete_total busy_core "r1_vae" reached

lookup_transfer_latency-IsBlock_example :
    (length intra.block_sizes ≡ 0) × (lookup_transfer_latency 150 intra ≡ ok inf)
    ⊎ (index : ℕ) × (l : Latency) × IsBlock (100 ∷ 200 ∷ []) 150 index
      × (get_elem? (fin 5 ∷ fin 7 ∷ []) index ≡ some l)
      × (lookup_transfer_latency 150 intra ≡ ok l)
lookup_transfer_latency-IsBlock_example = lookup_transfer_latency-IsBlock 150 intra refl

abbrev profile : ModelProfile
profile = record {
  loading_latency = fin 1000;
  execution_latencies =
      (shape_key "default" 4 512 512, fin 40) ∷ (shape_key "default" 4 1024 1024, fin 90) ∷ [];
}

profile-IsDict : IsDict profile.execution_latencies
unfolding lookup key_eq key_beq
profile-IsDict = (refl, (refl, tt))

rounded : next_power_of_2 3 ≡ ok 4
unfolding next_power_of_2
rounded = refl

found : lookup_execution_latency profile "default" 3 600 600 ≡ ok (fin 40)
unfolding lookup_execution_latency lookup key_eq key_beq
found = refl

lookup_execution_latency-IsNearest_example :
    (lookup_execution_latency profile "default" 3 600 600 ≡ ok inf)
      × ((h w : ℕ) (l : Latency) → ¬ IsMeasured "default" 4 profile.execution_latencies h w l)
    ⊎ (l : Latency) × (lookup_execution_latency profile "default" 3 600 600 ≡ ok l)
      × IsNearest "default" 4 600 600 profile.execution_latencies l
lookup_execution_latency-IsNearest_example =
    lookup_execution_latency-IsNearest profile "default" 3 600 600 4 profile-IsDict rounded
