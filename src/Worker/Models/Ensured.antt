-- ===== src/Worker/Models/Ensured.antt =====
-- `_ensure_model_in_gpu` (worker.py): the model that a task runs on is brought to the GPU.
use diflow.Prelude.{
  ℕ, ◌≤◌, ◌<◌, ◌≡◌, ◌⊎◌, refl, arith, true, false, ◌||◌, none, some, [], ◌∷◌, ◌++◌, String,
  string_eq, ◌==◌, if◌then◌else◌, leb, Dict, IsDict, lookup, insert, erase, contains, lookup-insert,
  lookup-erase, lookup-insert_self, insert-IsDict, erase-IsDict, Outcome, ok, raise, Bool-cases,
  Option-cases, inl, inr, runtime_error, ◌>>=◌,
}
use diflow.Worker.Models.{
  Models, Instance, Device, gpu, to, move_to_end, make_room, place_on_gpu, move_model_to_gpu,
  load_model, count_access, touch, set_usage, load_on_gpu, ensure_model_in_gpu,
}
use diflow.Worker.Models.Kept.{
  IsPlaced, IsKept, make_room-IsKept, IsLatest, IsBrought, move_to_end-IsDict, lookup-move_to_end,
}

-- A state `t` in which `id` was written to the GPU, last, and nothing else was touched.
record IsWritten (id : String) (m : Instance) (s t : Models) : Type 0 where
  on_device : m.device ≡ gpu
  cpu_once : IsDict t.cpu_models
  cpu_rest :
      (j : String) → lookup j t.cpu_models ≡ (if id == j then none else lookup j s.cpu_models)
  gpu_once : IsDict t.gpu_models
  gpu_rest :
      (j : String) → lookup j t.gpu_models ≡ (if id == j then some m else lookup j s.gpu_models)
  sizes :
      (j : String) → contains j t.model_memory_usage ≡ (id == j || contains j s.model_memory_usage)
  latest : IsLatest id t

IsWritten-IsBrought :
    (id : String) (m : Instance) (s t : Models) → IsPlaced s → IsWritten id m s t → IsBrought id s t
IsWritten-IsBrought id m s t p w = record {
  placed = record {
    cpu_once = w.cpu_once;
    gpu_once = w.gpu_once;
    apart = λ j. ground (arith, p.apart j, w.gpu_rest j, w.cpu_rest j);
    measured = λ j. ground (arith, p.measured j, w.gpu_rest j, w.sizes j);
    on_cpu = λ j n h. ground (arith, p.on_cpu j n, w.cpu_rest j);
    on_gpu = λ j n h. ground (arith, p.on_gpu j n, w.gpu_rest j, w.on_device);
  };
  models = λ j. ground (arith, w.gpu_rest j, w.cpu_rest j);
  latest = w.latest;
}

move_to_end-some :
    (id : String) (m : Instance) (d : Dict String Instance)
    → lookup id d ≡ some m
    → move_to_end id d ≡ ok (erase id d ++ (id, m) ∷ [])
unfolding move_to_end
move_to_end-some id m d h = rw (h, move_to_end)

moved_last-rest :
    (id j : String) (m : Instance) (d : Dict String Instance)
    → lookup j (erase id (insert id m d) ++ (id, m) ∷ []) ≡ (if id == j then some m else lookup j d)
moved_last-rest id j m d =
    ground (arith, lookup-move_to_end id j m (insert id m d), lookup-insert id j m d)

moved_last-IsDict :
    (id : String) (m : Instance) (d : Dict String Instance)
    → IsDict d
    → IsDict (erase id (insert id m d) ++ (id, m) ∷ [])
moved_last-IsDict id m d once = move_to_end-IsDict id m (insert id m d) (insert-IsDict id m d once)

-- The three ways in: from CPU memory, from disk, or already there.
abbrev from_cpu : String → Instance → ℕ → Models → Models
from_cpu id m base s = record s {
  gpu_models = erase id (insert id m s.gpu_models) ++ (id, m) ∷ [];
  cpu_models = erase id s.cpu_models;
  model_memory_usage = insert id base s.model_memory_usage;
}

abbrev from_disk : String → Instance → ℕ → Models → Models
from_disk id m base s = set_usage id base (
    count_access id (record s { gpu_models = erase id (insert id m s.gpu_models) ++ (id, m) ∷ [] }))

abbrev touched : String → Instance → Models → Models
touched id m s = count_access id (record s { gpu_models = erase id s.gpu_models ++ (id, m) ∷ [] })

place_on_gpu_lem :
    (id : String) (base : ℕ) (m : Instance) (s : Models)
    → lookup id s.cpu_models ≡ some m
    → place_on_gpu id base s ≡ ok (from_cpu id (to gpu m) base s)
unfolding place_on_gpu
place_on_gpu_lem id base m s h =
    rw (h, move_to_end-some id (to gpu m) _ (lookup-insert_self id (to gpu m) s.gpu_models)) refl

touch_lem :
    (id : String) (m : Instance) (s : Models)
    → lookup id s.gpu_models ≡ some m
    → touch id s ≡ ok (touched id m s)
unfolding touch
touch_lem id m s h = rw (move_to_end-some id m s.gpu_models h) refl

from_cpu-IsWritten :
    (id : String) (m : Instance) (base : ℕ) (s : Models)
    → IsPlaced s
    → m.device ≡ gpu
    → IsWritten id m s (from_cpu id m base s)
from_cpu-IsWritten id m base s p on = record {
  on_device = on;
  cpu_once = erase-IsDict id s.cpu_models p.cpu_once;
  cpu_rest = λ j. lookup-erase id j s.cpu_models;
  gpu_once = moved_last-IsDict id m s.gpu_models p.gpu_once;
  gpu_rest = λ j. moved_last-rest id j m s.gpu_models;
  sizes = λ j. ground (arith, lookup-insert id j base s.model_memory_usage);
  latest = (erase id (insert id m s.gpu_models), m, refl);
}

from_disk-IsWritten :
    (id : String) (m : Instance) (base : ℕ) (s : Models)
    → IsPlaced s
    → lookup id s.cpu_models ≡ none
    → m.device ≡ gpu
    → IsWritten id m s (from_disk id m base s)
from_disk-IsWritten id m base s p missing on = record {
  on_device = on;
  cpu_once = p.cpu_once;
  cpu_rest = λ j. ground (arith, string_eq.beq_iff id j);
  gpu_once = moved_last-IsDict id m s.gpu_models p.gpu_once;
  gpu_rest = λ j. moved_last-rest id j m s.gpu_models;
  sizes = λ j. ground (arith, lookup-insert id j base s.model_memory_usage);
  latest = (erase id (insert id m s.gpu_models), m, refl);
}

touched-IsWritten :
    (id : String) (m : Instance) (s : Models)
    → IsPlaced s
    → lookup id s.gpu_models ≡ some m
    → IsWritten id m s (touched id m s)
touched-IsWritten id m s p found = record {
  on_device = p.on_gpu id m found;
  cpu_once = p.cpu_once;
  cpu_rest = λ j. ground (arith, string_eq.beq_iff id j, p.apart id);
  gpu_once = move_to_end-IsDict id m s.gpu_models p.gpu_once;
  gpu_rest = λ j. lookup-move_to_end id j m s.gpu_models;
  sizes = λ j. ground (arith, string_eq.beq_iff id j, p.measured id);
  latest = (erase id s.gpu_models, m, refl);
}

IsBrought-of_kept :
    (id : String) {s t u : Models} → IsKept s t → IsBrought id t u → IsBrought id s u
IsBrought-of_kept id k b = record {
  placed = b.placed;
  models = λ j. ground (arith, k.same_models j, b.models j);
  latest = b.latest;
}

no_where :
    (id : String) (s t : Models)
    → IsKept s t
    → contains id s.gpu_models ≡ false
    → contains id s.cpu_models ≡ true
    → lookup id t.cpu_models ≡ none
    → ⊥
no_where id s t k off on missing = ground (arith, k.same_models id, k.only_down id)

still_no_where :
    (id : String) (s t : Models)
    → IsKept s t
    → contains id s.gpu_models ≡ false
    → contains id s.cpu_models ≡ false
    → (lookup id t.cpu_models ≡ none) × (lookup id t.gpu_models ≡ none)
still_no_where id s t k off off' = ground (arith, k.same_models id, k.only_down id)

move_model_to_gpu_total :
    (used base peak : ℕ) (s : Models) (id : String)
    → IsPlaced s
    → contains id s.gpu_models ≡ false
    → contains id s.cpu_models ≡ true
    → (t : Models) × (move_model_to_gpu used s id base peak ≡ ok t) × IsBrought id s t
unfolding move_model_to_gpu
move_model_to_gpu_total used base peak s id p off on =
    let room = make_room used peak s in
    let kept = make_room-IsKept used peak s p in
    elim (Option-cases (lookup id room.cpu_models)) [
      | inl missing ↦ absurd (no_where id s room kept off on missing)
      | inr (m, found) ↦
          let w = from_cpu-IsWritten id (to gpu m) base room kept.placed refl in
          (
            from_cpu id (to gpu m) base room,
            rw on (place_on_gpu_lem id base m room found),
            IsBrought-of_kept id kept (IsWritten-IsBrought id (to gpu m) room _ kept.placed w),
          )
    ]

abbrev fresh : String → Instance
fresh id = record { model = id; device = gpu }

load_on_gpu_lem :
    (initialize : String → String → Device → Outcome (Unit {0})) (id path : String) (base : ℕ)
    (s : Models)
    → initialize id path gpu ≡ ok tt
    → lookup id s.gpu_models ≡ none
    → ((load_model initialize id path gpu s >>= touch id) >>= λ t. ok (set_usage id base t))
      ≡ ok (from_disk id (fresh id) base s)
unfolding load_model
load_on_gpu_lem initialize id path base s loads missing =
    rw (missing, loads)
      (rw
        (touch_lem id (fresh id) (record s { gpu_models = insert id (fresh id) s.gpu_models })
          (lookup-insert_self id (fresh id) s.gpu_models))
        refl)

load_on_gpu_total :
    (initialize : String → String → Device → Outcome (Unit {0})) (used base peak : ℕ) (s : Models)
    (id path : String)
    → IsPlaced s
    → initialize id path gpu ≡ ok tt
    → contains id s.gpu_models ≡ false
    → contains id s.cpu_models ≡ false
    → (t : Models) × (load_on_gpu initialize used s id path base peak ≡ ok t) × IsBrought id s t
unfolding load_on_gpu
load_on_gpu_total initialize used base peak s id path p loads off off' =
    let room = make_room used peak s in
    let kept = make_room-IsKept used peak s p in
    let (not_cpu, not_gpu) = still_no_where id s room kept off off' in
    let w = from_disk-IsWritten id (fresh id) base room kept.placed not_cpu refl in
    (
      from_disk id (fresh id) base room,
      load_on_gpu_lem initialize id path base room loads not_gpu,
      IsBrought-of_kept id kept (IsWritten-IsBrought id (fresh id) room _ kept.placed w),
    )

touch_total :
    (s : Models) (id : String)
    → IsPlaced s
    → contains id s.gpu_models ≡ true
    → (t : Models) × (touch id s ≡ ok t) × IsBrought id s t
touch_total s id p on = elim (Option-cases (lookup id s.gpu_models)) [
  | inl missing ↦ absurd (ground arith)
  | inr (m, found) ↦ (
    touched id m s,
    touch_lem id m s found,
    IsWritten-IsBrought id m s _ p (touched-IsWritten id m s p found),
  )
]

-- Where the loader does not raise, a worker that is asked for a model refuses exactly a task whose
-- peak passes its whole memory. Otherwise the model is brought to the GPU as the most recently used
-- one, wherever it stood before; no model is lost or kept twice, each one's components are on the
-- device of the table that lists it, and the sizes are those of the models on the GPU.
pub ensure_model_in_gpu_decides :
    (initialize : String → String → Device → Outcome (Unit {0})) (used base peak : ℕ) (s : Models)
    (id path : String)
    → IsPlaced s
    → initialize id path gpu ≡ ok tt
    → ((s.available_gpu_memory < peak)
        × (ensure_model_in_gpu initialize used s id (some path) base peak ≡ raise runtime_error))
      ⊎ ((t : Models) × (ensure_model_in_gpu initialize used s id (some path) base peak ≡ ok t)
          × (peak ≤ s.available_gpu_memory)
          × IsBrought id s t)
unfolding ensure_model_in_gpu
ensure_model_in_gpu_decides initialize used base peak s id path p loads =
    elim (Bool-cases (leb peak s.available_gpu_memory)) [
      | inr over ↦ inl (ground arith, rw over refl)
      | inl fits ↦
          let bound : peak ≤ s.available_gpu_memory = ground arith in
          inr (elim (Bool-cases (contains id s.gpu_models)) [
            | inl on ↦ let (t, e, b) = touch_total s id p on in (t, rw (fits, on) e, bound, b)
            | inr off ↦ elim (Bool-cases (contains id s.cpu_models)) [
              | inl on ↦
                  let (t, e, b) = move_model_to_gpu_total used base peak s id p off on in
                  (t, rw (fits, off, on) (rw (on, move_model_to_gpu) at e), bound, b)
              | inr off' ↦
                  let (t, e, b) =
                    load_on_gpu_total initialize used base peak s id path p loads off off' in
                  (t, rw (fits, off, off') e, bound, b)
            ]
          ])
    ]
