-- ===== src/Profiling/Examples.antt =====
-- A profile is loaded, and read by admission control and by the scheduling core.
use diflow.Prelude.{
  ℕ, ◌≤◌, ◌≡◌, refl, true, false, none, some, List, [], ◌∷◌, string_eq, lookup, insert, member, ok,
  raise, every, All, unsupported_profile, missing_profile,
}
use diflow.Latency.{Latency, fin, Le}
use diflow.SchedulingCore.Profile.{ModelProfile, lookup_execution_latency, key_eq}
use diflow.Profiling.{
  execution_key_eq, execution_key, ExecutionRuntimeProfile, successful, OperatorRuntimeProfile,
  RuntimeProfile, execution_latency, to_scheduling_profiles, max_peak_total_memory,
  peak_total_memory,
}
use diflow.Profiling.Loading.{LoadEntry, OpEntry, or_zero, from_payload}
use diflow.Profiling.Loading.Recorded.{results_for}
use diflow.Profiling.Loading.Merged.{from_payload-merges}
use diflow.Profiling.Agreement.{lookup_execution_latency-le}

abbrev took : ℕ → ExecutionRuntimeProfile
took latency = record {
  latency_seconds = some latency;
  activation_memory_bytes = some 10;
  failed = false;
}

abbrev failure : ExecutionRuntimeProfile
failure = record { latency_seconds = none; activation_memory_bytes = none; failed = true }

abbrev entry : ℕ → ℕ → ExecutionRuntimeProfile → OpEntry
entry height width result = record {
  op_id = "unet";
  key = execution_key "default" 1 height width;
  result = result;
}

abbrev loads : List LoadEntry
loads =
    record {
      op_id = "unet";
      disk_to_host_latency_seconds = 8;
      host_to_gpu_latency_seconds = 3;
      model_memory_bytes = 100;
    }
    ∷ []

-- One shape twice, two shapes equally near to 512 by 512, and one that fails.
abbrev entries : List OpEntry
entries =
    entry 256 512 (took 7)
    ∷ entry 256 512 (took 9)
    ∷ entry 768 512 (took 5)
    ∷ entry 64 64 failure
    ∷ []

abbrev unet : OperatorRuntimeProfile
unet = record {
  disk_to_host_latency_seconds = 8;
  host_to_gpu_latency_seconds = 3;
  model_memory_bytes = 100;
  executions =
      (execution_key "default" 1 256 512, took 9)
      ∷ (execution_key "default" 1 768 512, took 5)
      ∷ (execution_key "default" 1 64 64, failure)
      ∷ [];
}

abbrev profile : RuntimeProfile
profile = record { operators = ("unet", unet) ∷ []; failed_resolutions = (100, 100) ∷ [] }

loaded : from_payload 2 loads entries ((100, 100) ∷ []) ≡ ok profile
unfolding from_payload lookup insert member execution_key_eq
loaded = refl

admission : execution_latency profile "unet" "default" 1 512 512 ≡ ok 9
unfolding execution_latency lookup execution_key_eq
admission = refl

failed_shape : execution_latency profile "unet" "default" 1 64 64 ≡ raise unsupported_profile
unfolding execution_latency lookup execution_key_eq
failed_shape = refl

failed_resolution : execution_latency profile "unet" "default" 1 100 100 ≡ raise unsupported_profile
unfolding execution_latency lookup execution_key_eq
failed_resolution = refl

unknown_operator : execution_latency profile "vae" "default" 1 512 512 ≡ raise missing_profile
unfolding execution_latency lookup execution_key_eq
unknown_operator = refl

peak : peak_total_memory profile "unet" "default" 1 512 512 ≡ ok 110
unfolding peak_total_memory lookup execution_key_eq
peak = refl

most : max_peak_total_memory profile "unet" ≡ ok 110
unfolding max_peak_total_memory lookup execution_key_eq
most = refl

abbrev merged_shape : ExecutionRuntimeProfile
merged_shape = took 9

from_payload-merges_example :
    (successful merged_shape
      ≡ every successful (results_for "unet" (execution_key "default" 1 256 512) entries))
    × (successful merged_shape ≡ true
        → All
            (λ r. or_zero r.latency_seconds ≤ or_zero merged_shape.latency_seconds)
            (results_for "unet" (execution_key "default" 1 256 512) entries))
unfolding lookup execution_key_eq
from_payload-merges_example =
    from_payload-merges 2 loads entries ((100, 100) ∷ []) profile "unet" unet
      (execution_key "default" 1 256 512) (took 9) loaded refl refl

-- The core takes the faster of the two.
lookup_execution_latency-le_example :
    (model : ModelProfile) × (latency : Latency) × (lookup "unet" (to_scheduling_profiles profile)
      ≡ some model)
    × (lookup_execution_latency model "default" 1 512 512 ≡ ok latency)
    × Le latency (fin 9)
unfolding lookup execution_key_eq
lookup_execution_latency-le_example =
    lookup_execution_latency-le profile unet "unet" "default" 1 512 512 9 refl
      (refl, (refl, (refl, tt))) admission
