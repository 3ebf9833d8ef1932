-- ===== src/Profiling.antt =====
-- The measured profile of the operators (diflow/profiling/runtime_profile.py), which the coordinator
-- reads for admission and memory, and which is handed to the scheduling core. Latencies are whole
-- microseconds, texts of errors are left out.
pub mod Loading
pub mod Measured
pub mod Agreement
pub mod Examples
use diflow.Prelude.{
  ℕ, ◌+◌, ◌-◌, ◌^◌, Bool, true, false, not, ◌&&◌, ◌||◌, Option, none, some, List, [], ◌∷◌, ◌++◌,
  map, String, ◌==◌, string_eq, if◌then◌else◌, ltb, leb, nat_beq, max, Dict, is_some, lookup, Eq,
  ◌↔◌, ◌≡◌, arith, Outcome, ok, raise, ◌>>=◌, ◌>>◌, require, or_raise, value_error, assertion_error,
  missing_profile, unsupported_profile, some_of, every, contains, member,
}
use diflow.Latency.{Latency, fin}
use diflow.Workflow.{WorkflowNode}
use diflow.Region.{Region, Workflow, region_nodes}
use diflow.SchedulingCore.Profile.{ProfileKey, shape_key, ModelProfile, bit_length, shape_distance}

-- Mode, batch size, height and width.
pub data ExecutionKey : Type 0 where
  execution_key : (mode : String) (batch_size height width : ℕ) → ExecutionKey

unfoldable pub execution_key_beq : ExecutionKey → ExecutionKey → Bool
execution_key_beq (execution_key m b h w) (execution_key m' b' h' w') =
    m == m' && (nat_beq b b' && (nat_beq h h' && nat_beq w w'))

pub execution_key_beq_iff : (j k : ExecutionKey) → (execution_key_beq j k ≡ true) ↔ (j ≡ k)
unfolding execution_key_beq
execution_key_beq_iff (execution_key m b h w) (execution_key m' b' h' w') =
    ground (arith, string_eq.beq_iff m m')

instance unfoldable pub execution_key_eq : Eq ExecutionKey
unfolding execution_key_beq
execution_key_eq = record { beq = execution_key_beq; beq_iff = execution_key_beq_iff }

-- A measurement; `failed` says that it carries an error.
pub record ExecutionRuntimeProfile : Type 0 where
  pub latency_seconds : Option ℕ
  pub activation_memory_bytes : Option ℕ
  pub failed : Bool

abbrev pub successful : ExecutionRuntimeProfile → Bool
successful x = not x.failed && (is_some x.latency_seconds && is_some x.activation_memory_bytes)

pub record OperatorRuntimeProfile : Type 0 where
  pub disk_to_host_latency_seconds : ℕ
  pub host_to_gpu_latency_seconds : ℕ
  pub model_memory_bytes : ℕ
  pub executions : Dict ExecutionKey ExecutionRuntimeProfile

pub record RuntimeProfile : Type 0 where
  pub operators : Dict String OperatorRuntimeProfile
  -- the resolutions whose benchmark failed
  pub failed_resolutions : List (ℕ × ℕ)

abbrev pub is_profile_free : String → Bool
is_profile_free id = id == "IndexedTensor" || id == "GuidanceTensor"

-- `_adjust_batch_size`
unfoldable pub adjust_batch_size : ℕ → Outcome ℕ
unfolding bit_length
adjust_batch_size batch_size =
    require (leb 1 batch_size) value_error >> ok (2 ^ bit_length (batch_size - 1))

-- `_operator`
abbrev pub operator : RuntimeProfile → String → Outcome OperatorRuntimeProfile
operator p id = or_raise missing_profile (lookup id p.operators)

-- One of `candidates`; the mode and the batch size of their keys are all the same.
pub record Candidate : Type 0 where
  pub distance : ℕ
  pub height : ℕ
  pub width : ℕ
  pub execution : ExecutionRuntimeProfile

-- The comprehension `candidates`, one entry at a time.
abbrev pub execution_candidate :
    String → ℕ → ℕ → ℕ → ExecutionKey × ExecutionRuntimeProfile → List Candidate → List Candidate
execution_candidate mode batch height width (execution_key m b h w, x) rest =
    if m == mode && (nat_beq b batch && successful x)
    then record { distance = shape_distance height width h w; height = h; width = w; execution = x }
      ∷ rest
    else rest

unfoldable pub execution_candidates :
    String → ℕ → ℕ → ℕ → Dict ExecutionKey ExecutionRuntimeProfile → List Candidate
execution_candidates mode batch height width [] = []
execution_candidates mode batch height width (e ∷ es) =
    execution_candidate mode batch height width e (execution_candidates mode batch height width es)

-- `<` on the distances with the keys.
abbrev pub nearer : Candidate → Candidate → Bool
nearer c d =
    ltb c.distance d.distance
    || (nat_beq c.distance d.distance
        && (ltb c.height d.height || (nat_beq c.height d.height && ltb c.width d.width)))

-- One comparison of `min`, which keeps the first of the least.
unfoldable pub closer : Candidate → Candidate → Candidate
closer best c = if nearer c best then c else best

-- `best` is the least so far.
unfoldable pub nearest_from : Candidate → List Candidate → Candidate
unfolding closer
nearest_from best [] = best
nearest_from best (c ∷ cs) = nearest_from (closer best c) cs

unfoldable pub nearest_execution : List Candidate → Outcome ExecutionRuntimeProfile
unfolding nearest_from
nearest_execution [] = raise missing_profile
nearest_execution (c ∷ cs) = ok (nearest_from c cs).execution

abbrev pub is_failed : ℕ → ℕ → List (ℕ × ℕ) → Bool
is_failed height width resolutions =
    some_of (λ r. nat_beq r.0 height && nat_beq r.1 width) resolutions

-- `execution`, once the operator and the batch size are found.
unfoldable pub execution_at :
    OperatorRuntimeProfile → List (ℕ × ℕ) → String → ℕ → ℕ → ℕ → Outcome ExecutionRuntimeProfile
unfolding execution_candidates nearest_execution
execution_at profile failures mode batch height width =
    elim (lookup (execution_key mode batch height width) profile.executions) [
      | some exact ↦ if successful exact then ok exact else raise unsupported_profile
      | none ↦
          if is_failed height width failures
          then raise unsupported_profile
          else nearest_execution (execution_candidates mode batch height width profile.executions)
    ]

unfoldable pub execution :
    RuntimeProfile → String → String → ℕ → ℕ → ℕ → Outcome ExecutionRuntimeProfile
unfolding execution_at adjust_batch_size
execution p id mode batch_size height width = operator p id >>= λ profile.
    adjust_batch_size batch_size >>= λ batch.
    execution_at profile p.failed_resolutions mode batch height width

unfoldable pub execution_latency : RuntimeProfile → String → String → ℕ → ℕ → ℕ → Outcome ℕ
unfolding execution
execution_latency p id mode batch_size height width =
    execution p id mode batch_size height width >>= λ x. or_raise assertion_error x.latency_seconds

unfoldable pub activation_memory : RuntimeProfile → String → String → ℕ → ℕ → ℕ → Outcome ℕ
unfolding execution
activation_memory p id mode batch_size height width =
    execution p id mode batch_size height width >>= λ x.
    or_raise assertion_error x.activation_memory_bytes

abbrev pub model_memory : RuntimeProfile → String → Outcome ℕ
model_memory p id = operator p id >>= λ profile. ok profile.model_memory_bytes

abbrev pub loading_latency : RuntimeProfile → String → Outcome ℕ
loading_latency p id = operator p id >>= λ profile. ok profile.host_to_gpu_latency_seconds

-- The activation memories of the successful executions.
abbrev pub activation_memories : Dict ExecutionKey ExecutionRuntimeProfile → List ℕ
activation_memories [] = []
activation_memories ((key, x) ∷ es) =
    let rest = activation_memories es in
    if successful x
    then elim x.activation_memory_bytes [ none ↦ rest | some bytes ↦ bytes ∷ rest ]
    else rest

abbrev pub max_from : ℕ → List ℕ → ℕ
max_from best [] = best
max_from best (n ∷ ns) = max_from (max best n) ns

unfoldable pub max_of : List ℕ → Outcome ℕ
max_of [] = raise missing_profile
max_of (n ∷ ns) = ok (max_from n ns)

unfoldable pub max_peak_total_memory : RuntimeProfile → String → Outcome ℕ
unfolding max_of
max_peak_total_memory p id = operator p id >>= λ profile.
    max_of (activation_memories profile.executions) >>= λ most.
    ok (profile.model_memory_bytes + most)

unfoldable pub peak_total_memory : RuntimeProfile → String → String → ℕ → ℕ → ℕ → Outcome ℕ
unfolding activation_memory
peak_total_memory p id mode batch_size height width = model_memory p id >>= λ base.
    activation_memory p id mode batch_size height width >>= λ active. ok (base + active)

unfoldable pub validate_execution :
    RuntimeProfile → String → String → ℕ → ℕ → ℕ → Outcome (Unit {0})
unfolding execution
validate_execution p id mode batch_size height width =
    if is_profile_free id
    then ok tt
    else (execution p id mode batch_size height width >>= λ x. ok tt)

-- The latency of a successful execution.
unfoldable pub measured : ExecutionRuntimeProfile → Option ℕ
measured x = if successful x then x.latency_seconds else none

abbrev pub to_key : ExecutionKey → ProfileKey
to_key (execution_key m b h w) = shape_key m b h w

unfoldable pub scheduling_latencies :
    Dict ExecutionKey ExecutionRuntimeProfile → Dict ProfileKey Latency
unfolding measured
scheduling_latencies [] = []
scheduling_latencies ((key, x) ∷ es) = elim (measured x) [
  | none ↦ scheduling_latencies es
  | some l ↦ (to_key key, fin l) ∷ scheduling_latencies es
]

unfoldable pub to_scheduling_profile : OperatorRuntimeProfile → ModelProfile
unfolding scheduling_latencies
to_scheduling_profile profile = record {
  loading_latency = fin profile.host_to_gpu_latency_seconds;
  execution_latencies = scheduling_latencies profile.executions;
}

-- `to_scheduling_profiles`
unfoldable pub to_scheduling_profiles : RuntimeProfile → Dict String ModelProfile
unfolding to_scheduling_profile
to_scheduling_profiles p = map (λ e. (e.0, to_scheduling_profile e.1)) p.operators

-- `_workflow_nodes`: the nodes of the workflow, and those in the bodies of its regions.
unfoldable pub profile_nodes : List WorkflowNode → List Region → List WorkflowNode
unfolding region_nodes
profile_nodes nodes [] = nodes
profile_nodes nodes (r ∷ regions) = profile_nodes (nodes ++ region_nodes r) regions

unfoldable pub validate_workflow : RuntimeProfile → Workflow → Outcome (Unit {0})
unfolding profile_nodes
validate_workflow p workflow =
    require
      (every (λ n. is_profile_free n.op.id || contains n.op.id p.operators)
        (profile_nodes workflow.workflow_nodes workflow.regions))
      missing_profile
