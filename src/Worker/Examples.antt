-- ===== src/Worker/Examples.antt =====
-- A worker with three models, and the patches on one of them.
use diflow.Prelude.{
  ◌+◌, ◌≤◌, ◌<◌, ◌≡◌, ◌⊎◌, refl, arith, false, ◌&&◌, none, some, List, [], ◌∷◌, String, string_eq,
  lookup, insert, erase, contains, Outcome, ok, raise, runtime_error, member, add_element,
  Bool-cases, inl, inr, ◌==◌,
}
use diflow.Worker.Models.{
  Models, Instance, Device, cpu, gpu, evict_models_for_memory, make_room, ensure_model_in_gpu,
  prefetch_models,
}
use diflow.Worker.Models.Kept.{IsPlaced, IsBrought}
use diflow.Worker.Models.Evicted.{
  IsEvicted, memory_of, evict_models_for_memory-IsEvicted, make_room-le,
}
use diflow.Worker.Models.Ensured.{ensure_model_in_gpu_decides}
use diflow.Worker.Patches.{
  Patches, Patch, initialized, executed, PatchCalls, patch_on, patch_off, use_patches,
}
use diflow.Worker.Patches.Needed.{AreLoaded, IsTrue, stands, HasApplied, use_patches_total}

abbrev on_disk : String → String → Device → Outcome (Unit {0})
on_disk id path device = ok tt

abbrev loaded_on : Device → String → Instance
loaded_on d id = record { model = id; device = d }

-- The text encoder was used least recently.
abbrev worker : Models
worker = record {
  available_gpu_memory = 20;
  cpu_models = ("vae", loaded_on cpu "vae") ∷ [];
  gpu_models = ("text", loaded_on gpu "text") ∷ ("dit", loaded_on gpu "dit") ∷ [];
  model_memory_usage = ("text", 6) ∷ ("dit", 10) ∷ [];
  model_access_count = [];
}

prefetched :
    prefetch_models on_disk (("vae", "models/vae") ∷ []) (record worker { cpu_models = [] })
    ≡ ok worker
unfolding prefetch_models lookup insert
prefetched = refl

-- The peak of 8 and the 16 in use pass 20: the text encoder goes, which is enough.
swapped :
    ensure_model_in_gpu on_disk 16 worker "vae" (some "models/vae") 5 8
    ≡ ok (record worker {
      cpu_models = ("text", loaded_on cpu "text") ∷ [];
      gpu_models = ("dit", loaded_on gpu "dit") ∷ ("vae", loaded_on gpu "vae") ∷ [];
      model_memory_usage = ("dit", 10) ∷ ("vae", 5) ∷ [];
    })
unfolding ensure_model_in_gpu lookup insert erase
swapped = refl

too_large :
    ensure_model_in_gpu on_disk 16 worker "vae" (some "models/vae") 5 21 ≡ raise runtime_error
unfolding ensure_model_in_gpu
too_large = refl

worker-apart :
    (id : String) → (contains id worker.cpu_models && contains id worker.gpu_models) ≡ false
unfolding lookup
worker-apart id = elim (Bool-cases (◌==◌ {K = String} "vae" id)) [
  | inl same ↦ rw (← (string_eq.beq_iff "vae" id).0 same) refl
  | inr other ↦ rw other refl
]

worker-IsPlaced : IsPlaced worker
unfolding lookup
worker-IsPlaced = record {
  cpu_once = (refl, tt);
  gpu_once = (refl, (refl, tt));
  apart = worker-apart;
  measured = λ id. ground arith;
  on_cpu = λ id m h. ground arith;
  on_gpu = λ id m h. ground arith;
}

ensure_model_in_gpu_decides_example :
    ((20 < 8)
      × (ensure_model_in_gpu on_disk 16 worker "vae" (some "models/vae") 5 8 ≡ raise runtime_error))
    ⊎ ((t : Models) × (ensure_model_in_gpu on_disk 16 worker "vae" (some "models/vae") 5 8 ≡ ok t)
        × (8 ≤ 20)
        × IsBrought "vae" worker t)
ensure_model_in_gpu_decides_example =
    ensure_model_in_gpu_decides on_disk 16 5 8 worker "vae" "models/vae" worker-IsPlaced refl

evict_models_for_memory-IsEvicted_example :
    IsEvicted worker.model_memory_usage 4 0 worker (evict_models_for_memory 4 worker)
evict_models_for_memory-IsEvicted_example =
    evict_models_for_memory-IsEvicted 4 worker worker-IsPlaced

make_room-le_example :
    memory_of worker.model_memory_usage
        (make_room (memory_of worker.model_memory_usage worker.gpu_models) 8 worker).gpu_models
      + 8
    ≤ 20
make_room-le_example = make_room-le 8 worker worker-IsPlaced (omega arith)

-- The patches of the last task were "lora" and "style", the next task wants "style" and "depth".
abbrev patched : Patches
patched = record {
  loaded = "lora" ∷ "style" ∷ [];
  model_patch_status = ("dit", "lora" ∷ "style" ∷ []) ∷ [];
  performed = executed patch_on "style" "dit" ∷ executed patch_on "lora" "dit" ∷ [];
}

abbrev style_and_depth : List Patch
style_and_depth =
    record { id = "style"; path = none } ∷ record { id = "depth"; path = some "models/depth" } ∷ []

abbrev calls : PatchCalls
calls = record { initialize = λ id path. ok tt; execute = λ mode id model. ok tt }

repatched :
    use_patches calls "dit" style_and_depth patched
    ≡ ok (record {
      loaded = "lora" ∷ "style" ∷ "depth" ∷ [];
      model_patch_status = ("dit", "style" ∷ "depth" ∷ []) ∷ [];
      performed =
          executed patch_on "depth" "dit"
          ∷ initialized "depth" "models/depth"
          ∷ executed patch_off "lora" "dit"
          ∷ patched.performed;
    })
unfolding use_patches lookup insert member add_element
repatched = refl

patched-AreLoaded : AreLoaded patched
unfolding lookup member
patched-AreLoaded model id h = ground (arith, string_eq.beq_iff "dit" model)

patched-IsTrue : IsTrue patched
unfolding lookup member
patched-IsTrue model id = ground (
  arith,
  string_eq.beq_iff "dit" model,
  string_eq.beq_iff "lora" id,
  string_eq.beq_iff "style" id,
)

use_patches_total_example :
    (t : Patches) × (use_patches calls "dit" style_and_depth patched ≡ ok t)
    × HasApplied "dit" patched t (λ id. member id ("style" ∷ "depth" ∷ []))
    × ((id : String) → stands "dit" id t.performed ≡ member id ("style" ∷ "depth" ∷ []))
use_patches_total_example =
    use_patches_total calls "dit" style_and_depth patched
      (record { loads = λ id path. refl; runs = λ mode id model. refl }) patched-AreLoaded
      patched-IsTrue
