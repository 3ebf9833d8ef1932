-- ===== src/Worker/Models/Kept.antt =====
-- No operation on a worker's models (worker.py) loses a model, keeps it twice, or leaves its
-- components on the wrong device.
use diflow.Prelude.{
  ℕ, zero, suc, ◌+◌, ◌-◌, ◌≡◌, refl, ◌∙◌, arith, Bool, true, false, ◌||◌, ◌&&◌, none, some, [], ◌∷◌,
  ◌++◌, String, string_eq, ◌==◌, if◌then◌else◌, ltb, length, Dict, IsDict, lookup, erase, contains,
  lookup-insert, lookup-erase, insert-IsDict, erase-IsDict, Option-cases, inl, inr,
}
use diflow.Worker.Models.{
  Models, Instance, cpu, gpu, to, move_model_to_cpu, moved_to_cpu, oldest, evict, get_or_zero,
  make_room,
}

pub record IsPlaced (s : Models) : Type 0 where
  pub cpu_once : IsDict s.cpu_models
  pub gpu_once : IsDict s.gpu_models
  pub apart : (id : String) → (contains id s.cpu_models && contains id s.gpu_models) ≡ false
  pub measured : (id : String) → contains id s.model_memory_usage ≡ contains id s.gpu_models
  pub on_cpu : (id : String) (m : Instance) → lookup id s.cpu_models ≡ some m → m.device ≡ cpu
  pub on_gpu : (id : String) (m : Instance) → lookup id s.gpu_models ≡ some m → m.device ≡ gpu

-- The worker has the model somewhere.
abbrev pub has : String → Models → Bool
has id s = contains id s.cpu_models || contains id s.gpu_models

pub lookup-append_new :
    (id j : String) (m : Instance) (d : Dict String Instance)
    → lookup id d ≡ none
    → lookup j (d ++ (id, m) ∷ []) ≡ (if id == j then some m else lookup j d)
unfolding lookup
lookup-append_new id j m [] h = refl
lookup-append_new id j m ((k, n) ∷ d) h = ground (
  arith,
  lookup-append_new id j m d,
  string_eq.beq_iff k id,
  string_eq.beq_iff k j,
  string_eq.beq_iff id j,
)

append_new-IsDict :
    (id : String) (m : Instance) (d : Dict String Instance)
    → lookup id d ≡ none
    → IsDict d
    → IsDict (d ++ (id, m) ∷ [])
unfolding lookup
append_new-IsDict id m [] h once = (refl, tt)
append_new-IsDict id m ((k, n) ∷ d) h once = (
  ground (arith, lookup-append_new id k m d, string_eq.beq_iff id k, string_eq.beq_iff k id),
  append_new-IsDict id m d (ground arith) once.1,
)

-- What `move_to_end` gives: the same entries, none twice, the moved one last.
pub move_to_end-IsDict :
    (id : String) (m : Instance) (d : Dict String Instance)
    → IsDict d
    → IsDict (erase id d ++ (id, m) ∷ [])
move_to_end-IsDict id m d once =
    append_new-IsDict id m (erase id d)
      (ground (arith, lookup-erase id id d, string_eq.beq_iff id id)) (erase-IsDict id d once)

pub lookup-move_to_end :
    (id j : String) (m : Instance) (d : Dict String Instance)
    → lookup j (erase id d ++ (id, m) ∷ []) ≡ (if id == j then some m else lookup j d)
lookup-move_to_end id j m d = ground (
  arith,
  lookup-append_new id j m (erase id d),
  lookup-erase id id d,
  lookup-erase id j d,
  string_eq.beq_iff id id,
)

module _ (s : Models) (id : String) where
  pub move_model_to_cpu-none : lookup id s.gpu_models ≡ none → move_model_to_cpu s id ≡ s
  unfolding move_model_to_cpu
  move_model_to_cpu-none h = rw (h, move_model_to_cpu)

  pub move_model_to_cpu-some :
      (m : Instance)
      → lookup id s.gpu_models ≡ some m
      → move_model_to_cpu s id ≡ moved_to_cpu s id m
  unfolding move_model_to_cpu
  move_model_to_cpu-some m h = rw (h, move_model_to_cpu)

  moved-IsPlaced : (m : Instance) → IsPlaced s → IsPlaced (moved_to_cpu s id m)
  moved-IsPlaced m p = record {
    cpu_once = insert-IsDict id (to cpu m) s.cpu_models p.cpu_once;
    gpu_once = erase-IsDict id s.gpu_models p.gpu_once;
    apart = λ j. ground (
      arith,
      p.apart j,
      lookup-insert id j (to cpu m) s.cpu_models,
      lookup-erase id j s.gpu_models,
    );
    measured = λ j. ground (
      arith,
      p.measured j,
      lookup-erase id j s.model_memory_usage,
      lookup-erase id j s.gpu_models,
    );
    on_cpu = λ j n h. ground (arith, p.on_cpu j n, lookup-insert id j (to cpu m) s.cpu_models);
    on_gpu = λ j n h. ground (arith, p.on_gpu j n, lookup-erase id j s.gpu_models);
  }

  pub move_model_to_cpu-IsPlaced : IsPlaced s → IsPlaced (move_model_to_cpu s id)
  move_model_to_cpu-IsPlaced p = elim (Option-cases (lookup id s.gpu_models)) [
    | inl missing ↦ rw (move_model_to_cpu-none missing) p
    | inr (m, found) ↦ rw (move_model_to_cpu-some m found) (moved-IsPlaced m p)
  ]

  pub has-move_model_to_cpu : (j : String) → has j (move_model_to_cpu s id) ≡ has j s
  has-move_model_to_cpu j = elim (Option-cases (lookup id s.gpu_models)) [
    | inl missing ↦ rw (move_model_to_cpu-none missing) refl
    | inr (m, found) ↦ rw (move_model_to_cpu-some m found) (
        ground (
          arith,
          lookup-insert id j (to cpu m) s.cpu_models,
          lookup-erase id j s.gpu_models,
          string_eq.beq_iff id j,
          found,
        ))
  ]

-- `t` holds the models of `s`, each once and in its place.
pub record IsKept (s t : Models) : Type 0 where
  pub placed : IsPlaced t
  pub same_models : (id : String) → has id t ≡ has id s
  pub same_limit : t.available_gpu_memory ≡ s.available_gpu_memory
  pub only_down :
      (id : String) → contains id s.gpu_models ≡ false → contains id t.gpu_models ≡ false

pub IsKept-refl : {s : Models} → IsPlaced s → IsKept s s
IsKept-refl p = record {
  placed = p;
  same_models = λ id. refl;
  same_limit = refl;
  only_down = λ id h. h;
}

if_IsKept : (b : Bool) (s t u : Models) → IsKept s t → IsKept s u → IsKept s (if b then t else u)
if_IsKept true s t u k l = k
if_IsKept false s t u k l = l

pub IsKept-trans : {s t u : Models} → IsKept s t → IsKept t u → IsKept s u
IsKept-trans k l = record {
  placed = l.placed;
  same_models = λ id. l.same_models id ∙ k.same_models id;
  same_limit = l.same_limit ∙ k.same_limit;
  only_down = λ id h. l.only_down id (k.only_down id h);
}

move_model_to_cpu-IsKept :
    (s : Models) (id : String) → IsPlaced s → IsKept s (move_model_to_cpu s id)
unfolding move_model_to_cpu
move_model_to_cpu-IsKept s id p = record {
  placed = move_model_to_cpu-IsPlaced s id p;
  same_models = has-move_model_to_cpu s id;
  same_limit = ground arith;
  only_down = λ j h. ground (arith, lookup-erase id j s.gpu_models);
}

pub evict-IsKept :
    (fuel required evicted : ℕ) (s : Models) → IsPlaced s → IsKept s (evict fuel required evicted s)
unfolding evict
evict-IsKept zero required evicted s p = IsKept-refl p
evict-IsKept (suc fuel) required evicted s p = elim (Option-cases (oldest s.gpu_models)) [
  | inl empty ↦ rw (empty, evict) (IsKept-refl p)
  | inr (id, found) ↦
      let first = move_model_to_cpu-IsKept s id p in
      let rest =
        evict-IsKept fuel required (evicted + get_or_zero id s.model_memory_usage)
          (move_model_to_cpu s id) first.placed in
      rw (found, evict)
        (if_IsKept (ltb evicted required) s _ s (IsKept-trans first rest) (IsKept-refl p))
]

pub make_room-IsKept : (used peak : ℕ) (s : Models) → IsPlaced s → IsKept s (make_room used peak s)
unfolding make_room
make_room-IsKept used peak s p =
    if_IsKept (ltb s.available_gpu_memory (peak + used)) s _ s
      (evict-IsKept (length s.gpu_models) (peak + used - s.available_gpu_memory) 0 s p)
      (IsKept-refl p)

-- `id` stands on the GPU, as the most recently used model.
abbrev pub IsLatest : String → Models → Type 0
IsLatest id s =
    (older : Dict String Instance) × (m : Instance) × (s.gpu_models ≡ older ++ (id, m) ∷ [])

-- `id` was put on the GPU; every other model stands where it did.
pub record IsBrought (id : String) (s t : Models) : Type 0 where
  pub placed : IsPlaced t
  pub models : (j : String) → has j t ≡ (has j s || id == j)
  pub latest : IsLatest id t
