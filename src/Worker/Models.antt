-- ===== src/Worker/Models.antt =====
-- The models of DistributedWorker (worker.py): what stands in CPU memory, what stands in GPU memory
-- from the least to the most recently used, and how one makes room for another. The calls of torch
-- are arguments: `used` is `torch.cuda.memory_allocated` at the time of the call, and `initialize`
-- is an operator's loader, which may raise.
pub mod Kept
pub mod Evicted
pub mod Ensured
use diflow.Prelude.{
  ℕ, zero, suc, ◌+◌, ◌-◌, Bool, true, false, Option, none, some, List, [], ◌∷◌, ◌++◌, String, ltb,
  leb, length, if◌then◌else◌, string_eq, Dict, lookup, insert, erase, contains, Outcome, ok, raise,
  ◌>>=◌, ◌>>◌, require, or_raise, runtime_error, key_error,
}

pub data Device : Type 0 where
  cpu gpu : Device

-- A loaded model: its operator, and the device that its components were moved to.
pub record Instance : Type 0 where
  pub model : String
  pub device : Device

abbrev pub to : Device → Instance → Instance
to d m = record m { device = d }

pub record Models : Type 0 where
  -- total memory times the allowed fraction, less what the transfers reserve
  pub available_gpu_memory : ℕ
  pub cpu_models : Dict String Instance
  -- least recently used first
  pub gpu_models : Dict String Instance
  pub model_memory_usage : Dict String ℕ
  pub model_access_count : Dict String ℕ

-- `d.get(key, 0)`
abbrev pub get_or_zero : String → Dict String ℕ → ℕ
get_or_zero key d = elim (lookup key d) [ none ↦ 0 | some n ↦ n ]

-- `OrderedDict.move_to_end`
unfoldable pub move_to_end : String → Dict String Instance → Outcome (Dict String Instance)
move_to_end id d = elim (lookup id d) [
  | none ↦ raise key_error
  | some m ↦ ok (erase id d ++ (id, m) ∷ [])
]

abbrev pub moved_to_cpu : Models → String → Instance → Models
moved_to_cpu s id m = record s {
  cpu_models = insert id (to cpu m) s.cpu_models;
  gpu_models = erase id s.gpu_models;
  model_memory_usage = erase id s.model_memory_usage;
}

-- `_move_model_to_cpu`
unfoldable pub move_model_to_cpu : Models → String → Models
move_model_to_cpu s id = elim (lookup id s.gpu_models) [ none ↦ s | some m ↦ moved_to_cpu s id m ]

-- `next(iter(self.gpu_models))`, where there is one.
abbrev pub oldest : Dict String Instance → Option String
oldest [] = none
oldest ((id, m) ∷ rest) = some id

-- The loop of `_evict_models_for_memory`. A round takes a model out of `gpu_models`.
unfoldable pub evict : ℕ → ℕ → ℕ → Models → Models
unfolding move_model_to_cpu
evict zero required evicted s = s
evict (suc fuel) required evicted s = elim (oldest s.gpu_models) [
  | none ↦ s
  | some id ↦
      let more =
        evict fuel required (evicted + get_or_zero id s.model_memory_usage)
          (move_model_to_cpu s id) in
      if ltb evicted required then more else s
]

unfoldable pub evict_models_for_memory : ℕ → Models → Models
unfolding evict
evict_models_for_memory required s = evict (length s.gpu_models) required 0 s

-- Room is made where `model_max_used_memory > available - used`.
unfoldable pub make_room : ℕ → ℕ → Models → Models
unfolding evict_models_for_memory
make_room used peak s =
    if ltb s.available_gpu_memory (peak + used)
    then evict_models_for_memory (peak + used - s.available_gpu_memory) s
    else s

-- The end of `_move_model_to_gpu`.
unfoldable pub place_on_gpu : String → ℕ → Models → Outcome Models
unfolding move_to_end
place_on_gpu id base s = or_raise key_error (lookup id s.cpu_models) >>= λ m.
    move_to_end id (insert id (to gpu m) s.gpu_models) >>= λ gpu_models. ok (record s {
      gpu_models = gpu_models;
      cpu_models = erase id s.cpu_models;
      model_memory_usage = insert id base s.model_memory_usage;
    })

-- `_move_model_to_gpu`
unfoldable pub move_model_to_gpu : ℕ → Models → String → ℕ → ℕ → Outcome Models
unfolding make_room place_on_gpu
move_model_to_gpu used s id base peak =
    require (contains id s.cpu_models) runtime_error >> place_on_gpu id base (make_room used peak s)

-- `_load_model`, where `path` is the model's path and the loader is given the device.
unfoldable pub load_model :
    (String → String → Device → Outcome (Unit {0}))
    → String
    → String
    → Device
    → Models
    → Outcome Models
load_model initialize id path cpu s =
    if contains id s.cpu_models
    then ok s
    else (initialize id path cpu
        >> ok (record s {
          cpu_models = insert id (record { model = id; device = cpu }) s.cpu_models;
        }))
load_model initialize id path gpu s =
    if contains id s.gpu_models
    then ok s
    else (initialize id path gpu
        >> ok (record s {
          gpu_models = insert id (record { model = id; device = gpu }) s.gpu_models;
        }))

abbrev count_access : String → Models → Models
count_access id s = record s {
  model_access_count = insert id (get_or_zero id s.model_access_count + 1) s.model_access_count;
}

-- The model becomes the most recently used one, and the access is counted.
unfoldable pub touch : String → Models → Outcome Models
unfolding move_to_end
touch id s = move_to_end id s.gpu_models >>= λ gpu_models.
    ok (count_access id (record s { gpu_models = gpu_models }))

abbrev set_usage : String → ℕ → Models → Models
set_usage id base s = record s { model_memory_usage = insert id base s.model_memory_usage }

-- The fallback of `_ensure_model_in_gpu`, for a model that stands nowhere.
unfoldable pub load_on_gpu :
    (String → String → Device → Outcome (Unit {0}))
    → ℕ
    → Models
    → String
    → String
    → ℕ
    → ℕ
    → Outcome Models
unfolding make_room load_model touch
load_on_gpu initialize used s id path base peak =
    load_model initialize id path gpu (make_room used peak s) >>= touch id >>= λ s'.
    ok (set_usage id base s')

-- `_ensure_model_in_gpu`, with `_validate_memory_availability`.
unfoldable pub ensure_model_in_gpu :
    (String → String → Device → Outcome (Unit {0}))
    → ℕ
    → Models
    → String
    → Option String
    → ℕ
    → ℕ
    → Outcome Models
unfolding touch move_model_to_gpu load_on_gpu
ensure_model_in_gpu initialize used s id none base peak = ok s
ensure_model_in_gpu initialize used s id (some path) base peak =
    require (leb peak s.available_gpu_memory) runtime_error
    >> (if contains id s.gpu_models
        then touch id s
        else if contains id s.cpu_models
        then move_model_to_gpu used s id base peak
        else load_on_gpu initialize used s id path base peak)

-- `prefetch_models`, to CPU memory.
unfoldable pub prefetch_models :
    (String → String → Device → Outcome (Unit {0}))
    → List (String × String)
    → Models
    → Outcome Models
unfolding load_model
prefetch_models initialize [] s = ok s
prefetch_models initialize ((id, path) ∷ models) s =
    load_model initialize id path cpu s >>= prefetch_models initialize models
