-- ===== src/Worker/Models/Evicted.antt =====
-- Which models `_evict_models_for_memory` (worker.py) takes from the GPU, and the room it makes.
use mathlib.Core.Path.{subst}
use diflow.Prelude.{
  ℕ, zero, suc, ◌+◌, ◌-◌, ◌≤◌, ◌<◌, ◌≡◌, ◌⊎◌, refl, sym, ◌∙◌, ap, arith, true, false, none, some,
  [], ◌∷◌, ◌++◌, String, string_eq, beq_refl, ltb, ltb→lt, length, Dict, IsDict, lookup, erase,
  contains, lookup-erase, erase_absent, Bool-cases, inl, inr,
}
use diflow.Worker.Models.{
  Models, Instance, moved_to_cpu, oldest, get_or_zero, evict, evict_models_for_memory, make_room,
}
use diflow.Worker.Models.Kept.{IsPlaced, move_model_to_cpu-some}

-- The sizes of the models of a table, one after the other.
unfoldable pub memory_of : Dict String ℕ → Dict String Instance → ℕ
memory_of sizes [] = 0
memory_of sizes ((id, m) ∷ rest) = get_or_zero id sizes + memory_of sizes rest

-- Each model of `out` was taken while the memory taken before it was too little.
abbrev pub IsNeeded : Dict String ℕ → ℕ → ℕ → Dict String Instance → Type 0
IsNeeded sizes required evicted [] = Unit
IsNeeded sizes required evicted ((id, m) ∷ out) =
    (evicted < required) × IsNeeded sizes required (evicted + get_or_zero id sizes) out

-- The sizes of the models on the GPU are those of `sizes`.
abbrev Agrees : Dict String ℕ → Models → Type 0
Agrees sizes s =
    (id : String)
    → contains id s.gpu_models ≡ true
    → get_or_zero id s.model_memory_usage ≡ get_or_zero id sizes

-- From `s` to `t` the first models of the order went, and no more than needed.
pub record IsEvicted (sizes : Dict String ℕ) (required evicted : ℕ) (s t : Models) : Type 0 where
  pub out : Dict String Instance
  pub order : s.gpu_models ≡ out ++ t.gpu_models
  pub needed : IsNeeded sizes required evicted out
  pub enough : (t.gpu_models ≡ []) ⊎ (required ≤ evicted + memory_of sizes out)

IsEvicted-none :
    (sizes : Dict String ℕ) (required evicted : ℕ) (s : Models)
    → (s.gpu_models ≡ []) ⊎ (required ≤ evicted)
    → IsEvicted sizes required evicted s s
unfolding memory_of
IsEvicted-none sizes required evicted s (inl empty) = record {
  out = [];
  order = refl;
  needed = tt;
  enough = inl empty;
}
IsEvicted-none sizes required evicted s (inr h) = record {
  out = [];
  order = refl;
  needed = tt;
  enough = inr (omega arith);
}

-- One round, on a worker whose least recently used model is `id`.
module _ (sizes : Dict String ℕ) (s : Models) (id : String) (m : Instance)
    (rest : Dict String Instance) (shape : s.gpu_models ≡ (id, m) ∷ rest)
    (once : IsDict ((id, m) ∷ rest)) where
  rest-eq : (moved_to_cpu s id m).gpu_models ≡ rest
  unfolding erase
  rest-eq = rw (shape, erase) (rw (beq_refl id) (erase_absent id rest once.0))

  found : lookup id s.gpu_models ≡ some m
  unfolding lookup
  found = rw shape (rw (beq_refl id) refl)

  first_size : Agrees sizes s → get_or_zero id s.model_memory_usage ≡ get_or_zero id sizes
  first_size a = a id (rw found refl)

  moved-Agrees : Agrees sizes s → Agrees sizes (moved_to_cpu s id m)
  moved-Agrees a j h =
      ground (arith, a j, lookup-erase id j s.gpu_models, lookup-erase id j s.model_memory_usage)

  IsEvicted-step :
      (required evicted : ℕ) (t : Models)
      → evicted < required
      → IsEvicted sizes required (evicted + get_or_zero id sizes) (moved_to_cpu s id m) t
      → IsEvicted sizes required evicted s t
  unfolding memory_of
  IsEvicted-step required evicted t less e = record {
    out = (id, m) ∷ e.out;
    order = shape ∙ ap (λ (d : Dict String Instance). (id, m) ∷ d) (sym rest-eq ∙ e.order);
    needed = (less, e.needed);
    enough = elim e.enough [ inl empty ↦ inl empty | inr h ↦ inr (omega arith) ];
  }

module _ (fuel required evicted : ℕ) (s : Models) where
  evict-none : oldest s.gpu_models ≡ none → evict (suc fuel) required evicted s ≡ s
  unfolding evict
  evict-none h = rw (h, evict) refl

  evict-done :
      (id : String)
      → oldest s.gpu_models ≡ some id
      → ltb evicted required ≡ false
      → evict (suc fuel) required evicted s ≡ s
  unfolding evict
  evict-done id h done = rw (h, done, evict) refl

  evict-more :
      (id : String) (m : Instance)
      → oldest s.gpu_models ≡ some id
      → lookup id s.gpu_models ≡ some m
      → ltb evicted required ≡ true
      → evict (suc fuel) required evicted s
        ≡ evict fuel required (evicted + get_or_zero id s.model_memory_usage) (moved_to_cpu s id m)
  unfolding evict
  evict-more id m h listed less =
      rw (h, less, evict) (rw (move_model_to_cpu-some s id m listed) refl)

evict-IsEvicted :
    (sizes : Dict String ℕ) (fuel required evicted : ℕ) (s : Models) (gpu : Dict String Instance)
    → s.gpu_models ≡ gpu
    → IsDict gpu
    → length gpu ≤ fuel
    → Agrees sizes s
    → IsEvicted sizes required evicted s (evict fuel required evicted s)
unfolding evict
evict-IsEvicted sizes zero required evicted s [] shape once h a =
    IsEvicted-none sizes required evicted s (inl shape)
evict-IsEvicted sizes zero required evicted s ((id, m) ∷ rest) shape once h a = absurd (omega arith)
evict-IsEvicted sizes (suc fuel) required evicted s [] shape once h a =
    subst (IsEvicted sizes required evicted s)
      (sym (evict-none fuel required evicted s (ap oldest shape)))
      (IsEvicted-none sizes required evicted s (inl shape))
evict-IsEvicted sizes (suc fuel) required evicted s ((id, m) ∷ rest) shape once h a =
    elim (Bool-cases (ltb evicted required)) [
      | inr done ↦
          subst (IsEvicted sizes required evicted s)
            (sym (evict-done fuel required evicted s id (ap oldest shape) done))
            (IsEvicted-none sizes required evicted s (inr (ground arith)))
      | inl less ↦
          let listed = found sizes s id m rest shape once in
          let size = first_size sizes s id m rest shape once a in
          let rest_evicted =
            evict-IsEvicted sizes fuel required (evicted + get_or_zero id sizes)
              (moved_to_cpu s id m) rest (rest-eq sizes s id m rest shape once) once.1 (omega arith)
              (moved-Agrees sizes s id m rest shape once a) in
          subst (IsEvicted sizes required evicted s)
            (sym (
              evict-more fuel required evicted s id m (ap oldest shape) listed less
              ∙ ap (λ n. evict fuel required (evicted + n) (moved_to_cpu s id m)) size))
            (IsEvicted-step sizes s id m rest shape once required evicted _ (ltb→lt _ _ less)
              rest_evicted)
    ]

-- A worker that evicts takes the least recently used models, in their order, one at a time and only
-- while the memory taken is too little; it stops with enough, or with no model on the GPU.
pub evict_models_for_memory-IsEvicted :
    (required : ℕ) (s : Models)
    → IsPlaced s
    → IsEvicted s.model_memory_usage required 0 s (evict_models_for_memory required s)
unfolding evict_models_for_memory
evict_models_for_memory-IsEvicted required s p =
    evict-IsEvicted s.model_memory_usage (length s.gpu_models) required 0 s s.gpu_models refl
      p.gpu_once (omega arith) (λ id h. refl)

memory_of-append :
    (sizes : Dict String ℕ) (d e : Dict String Instance)
    → memory_of sizes (d ++ e) ≡ memory_of sizes d + memory_of sizes e
unfolding memory_of
memory_of-append sizes [] e = omega arith
memory_of-append sizes ((id, m) ∷ d) e = omega (arith, memory_of-append sizes d e)

room_left :
    (sizes : Dict String ℕ) (limit peak : ℕ) (s t : Models)
    → peak ≤ limit
    → IsEvicted sizes (peak + memory_of sizes s.gpu_models - limit) 0 s t
    → memory_of sizes t.gpu_models + peak ≤ limit
unfolding memory_of
room_left sizes limit peak s t fits e =
    let split = ap (memory_of sizes) e.order ∙ memory_of-append sizes e.out t.gpu_models in
    elim e.enough [
      | inl empty ↦ let none_left = ap (memory_of sizes) empty in omega arith
      | inr h ↦ omega arith
    ]

-- Where the allocated memory is what the models on the GPU are recorded with, and the peak fits
-- into the whole memory, the models that stay leave room for the peak.
pub make_room-le :
    (peak : ℕ) (s : Models)
    → IsPlaced s
    → peak ≤ s.available_gpu_memory
    → memory_of s.model_memory_usage
          (make_room (memory_of s.model_memory_usage s.gpu_models) peak s).gpu_models
        + peak
      ≤ s.available_gpu_memory
unfolding make_room
make_room-le peak s p fits =
    let used = memory_of s.model_memory_usage s.gpu_models in
    elim (Bool-cases (ltb s.available_gpu_memory (peak + used))) [
      | inr enough ↦ rw enough (ground arith)
      | inl less ↦ rw less (
          room_left s.model_memory_usage s.available_gpu_memory peak s _ fits
            (evict_models_for_memory-IsEvicted (peak + used - s.available_gpu_memory) s p))
    ]
