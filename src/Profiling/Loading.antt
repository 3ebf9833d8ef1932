-- ===== src/Profiling/Loading.antt =====
-- How a profile is built from its file (`from_dict`, runtime_profile.py). The entries are given as the
-- numbers and texts that `int`, `float` and `str` make of the file, a memory below 0 as 0.
pub mod Recorded
pub mod Merged
use diflow.Prelude.{
  ℕ, Bool, true, false, not, ◌&&◌, ◌||◌, Option, none, some, List, [], ◌∷◌, map, String, string_eq,
  if◌then◌else◌, nat_beq, max, length, Dict, keys, lookup, insert, Outcome, ok, ◌>>=◌, ◌>>◌,
  require, unusable_profile, member, every,
}
use diflow.Profiling.{
  ExecutionKey, execution_key_eq, ExecutionRuntimeProfile, successful, OperatorRuntimeProfile,
  RuntimeProfile, is_profile_free,
}

-- An entry of "model_load_profiles", and one of "ops".
pub record LoadEntry : Type 0 where
  pub op_id : String
  pub disk_to_host_latency_seconds : ℕ
  pub host_to_gpu_latency_seconds : ℕ
  pub model_memory_bytes : ℕ

pub record OpEntry : Type 0 where
  pub op_id : String
  pub key : ExecutionKey
  pub result : ExecutionRuntimeProfile

abbrev pub Operators : Type 0
Operators = Dict String OperatorRuntimeProfile

-- `operators.setdefault(op_id, OperatorRuntimeProfile())`
unfoldable pub profile_of : String → Operators → OperatorRuntimeProfile
profile_of id operators = elim (lookup id operators) [
  | some profile ↦ profile
  | none ↦ record {
    disk_to_host_latency_seconds = 0;
    host_to_gpu_latency_seconds = 0;
    model_memory_bytes = 0;
    executions = [];
  }
]

-- The loop over the load profiles.
unfoldable pub add_loads : Operators → List LoadEntry → Operators
unfolding profile_of
add_loads operators [] = operators
add_loads operators (e ∷ es) =
    let p = profile_of e.op_id operators in
    let loaded = record p {
      disk_to_host_latency_seconds =
          max p.disk_to_host_latency_seconds e.disk_to_host_latency_seconds;
      host_to_gpu_latency_seconds = max p.host_to_gpu_latency_seconds e.host_to_gpu_latency_seconds;
      model_memory_bytes = max p.model_memory_bytes e.model_memory_bytes;
    } in
    add_loads (insert e.op_id loaded operators) es

-- A successful execution has both numbers.
abbrev pub or_zero : Option ℕ → ℕ
or_zero none = 0
or_zero (some n) = n

-- `_merge_execution`
unfoldable pub merge_execution :
    Option ExecutionRuntimeProfile → ExecutionRuntimeProfile → ExecutionRuntimeProfile
merge_execution none candidate = candidate
merge_execution (some existing) candidate =
    if successful existing && successful candidate
    then record {
      latency_seconds =
          some (max (or_zero existing.latency_seconds) (or_zero candidate.latency_seconds));
      activation_memory_bytes = some (
          max (or_zero existing.activation_memory_bytes)
            (or_zero candidate.activation_memory_bytes));
      failed = false;
    }
    else record { latency_seconds = none; activation_memory_bytes = none; failed = true }

unfoldable pub add_op : Operators → OpEntry → Operators
unfolding profile_of merge_execution
add_op operators e =
    let p = profile_of e.op_id operators in
    let merged = merge_execution (lookup e.key p.executions) e.result in
    insert e.op_id (record p { executions = insert e.key merged p.executions }) operators

-- The loop over the measurements.
unfoldable pub add_ops : Operators → List OpEntry → Operators
unfolding add_op
add_ops operators [] = operators
add_ops operators (e ∷ es) = add_ops (add_op operators e) es

-- `from_dict`; the transfer profiles of the package and the fields that are only stored are left out.
unfoldable pub from_payload :
    ℕ → List LoadEntry → List OpEntry → List (ℕ × ℕ) → Outcome RuntimeProfile
unfolding add_loads add_ops
from_payload schema_version loads ops failures =
    let operators = add_ops (add_loads [] loads) ops in
    let loaded = map (λ e. e.op_id) loads in
    require (nat_beq schema_version 2) unusable_profile
    >> (require (not (nat_beq (length operators) 0)) unusable_profile
        >> (require (every (λ id. member id loaded || is_profile_free id) (keys operators))
              unusable_profile
            >> ok (record { operators = operators; failed_resolutions = failures })))
