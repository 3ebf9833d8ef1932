-- ===== src/SchedulingCore/Task.antt =====
-- TaskSpec (scheduling_core.py): what the core is told of a task group.
use diflow.Prelude.{
  ℕ, Bool, true, false, ◌&&◌, List, [], ◌∷◌, String, leb, nat_beq, length, Outcome, ok, value_error,
  ◌>>◌, require,
}

pub record TaskSpec : Type 0 where
  pub task_id : String
  pub model_name : String
  pub mode : String
  pub batch_size : ℕ
  pub uses_model_profile : Bool
  pub tensor_offsets : List ℕ
  pub source_worker_ranks : List ℕ
  pub source_host_ids : List ℕ
  pub source_sizes_bytes : List ℕ
  pub height : ℕ
  pub width : ℕ

-- `offsets and offsets[0] == 0`
unfoldable pub starts_at_zero : List ℕ → Bool
starts_at_zero [] = false
starts_at_zero (o ∷ os) = nat_beq o 0

-- `offsets[-1] == count`, for offsets that are not empty.
unfoldable pub ends_at : ℕ → List ℕ → Bool
ends_at count [] = false
ends_at count (o ∷ []) = nat_beq o count
ends_at count (o ∷ p ∷ os) = ends_at count (p ∷ os)

-- No neighbours `left > right`.
unfoldable pub non_decreasing : List ℕ → Bool
non_decreasing [] = true
non_decreasing (o ∷ []) = true
non_decreasing (o ∷ p ∷ os) = leb o p && non_decreasing (p ∷ os)

-- `__post_init__`
unfoldable pub check_task_spec : TaskSpec → Outcome TaskSpec
unfolding starts_at_zero ends_at non_decreasing
check_task_spec task = do
  let count = length task.source_worker_ranks
  require
      (nat_beq (length task.source_host_ids) count
        && nat_beq (length task.source_sizes_bytes) count)
      value_error
  require (starts_at_zero task.tensor_offsets) value_error
  require (ends_at count task.tensor_offsets) value_error
  require (non_decreasing task.tensor_offsets) value_error
  ok task
