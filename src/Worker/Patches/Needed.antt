-- ===== src/Worker/Patches/Needed.antt =====
-- A task runs with exactly the patches of its operator (worker.py).
use diflow.Prelude.{
  ◌≡◌, refl, ◌∙◌, arith, Bool, true, false, not, ◌&&◌, ◌||◌, none, some, List, [], ◌∷◌, map, String,
  ◌==◌, string_eq, if◌then◌else◌, lookup-insert, ok, ◌>>◌, member, member-add, add_element, select,
  member-select, Bool-cases, Option-cases, ap, inl, inr,
}
use diflow.Worker.Patches.{
  Patches, Patch, PatchCall, initialized, executed, did, PatchCalls, PatchMode, patch_on, patch_off,
  applied, set_applied, start_tracking, drop_patch, remove_patches, remove_unnecessary_patches,
  load_patch, apply_patches, apply_necessary_patches, use_patches,
}

-- No operator call raises.
pub record IsWorking (calls : PatchCalls) : Type 0 where
  pub loads : (id path : String) → calls.initialize id path ≡ ok tt
  pub runs : (mode : PatchMode) (id model : String) → calls.execute mode id model ≡ ok tt

-- Every patch on a model is loaded.
abbrev pub AreLoaded : Patches → Type 0
AreLoaded s = (model id : String) → member id (applied model s) ≡ true → member id s.loaded ≡ true

abbrev pub is_on : PatchMode → Bool
is_on patch_on = true
is_on patch_off = false

-- The last call for a patch and a model put it on.
abbrev pub stands : String → String → List PatchCall → Bool
stands model id [] = false
stands model id (initialized other path ∷ calls) = stands model id calls
stands model id (executed mode other place ∷ calls) =
    if other == id && place == model then is_on mode else stands model id calls

-- The status says which patches the operators have put on each model.
abbrev pub IsTrue : Patches → Type 0
IsTrue s = (model id : String) → stands model id s.performed ≡ member id (applied model s)

-- From `s` to `t` only `model` changed; it has the patches that `wanted` says.
pub record HasApplied (model : String) (s t : Patches) (wanted : String → Bool) : Type 0 where
  pub here : (id : String) → member id (applied model t) ≡ wanted id
  pub elsewhere : (other : String) → (model == other) ≡ false → applied other t ≡ applied other s
  pub loaded : AreLoaded t
  pub real : IsTrue t

member-drop_patch :
    (id other : String) (ids : List String)
    → member other (drop_patch id ids) ≡ (member other ids && not (id == other))
unfolding member
member-drop_patch id other [] = refl
member-drop_patch id other (x ∷ ids) = ground (
  arith,
  member-drop_patch id other ids,
  string_eq.beq_iff x id,
  string_eq.beq_iff x other,
  string_eq.beq_iff id other,
)

applied-set :
    (model other : String) (ids : List String) (s : Patches)
    → applied other (set_applied model ids s) ≡ (if model == other then ids else applied other s)
applied-set model other ids s = ground (arith, lookup-insert model other ids s.model_patch_status)

remove_patches_total :
    (calls : PatchCalls) (model : String) (ids : List String) (s : Patches)
    → IsWorking calls
    → AreLoaded s
    → IsTrue s
    → ((id : String) → member id ids ≡ true → member id s.loaded ≡ true)
    → (t : Patches) × (remove_patches calls model ids s ≡ ok t)
      × HasApplied model s t (λ id. member id (applied model s) && not (member id ids))
unfolding remove_patches member
remove_patches_total calls model [] s w l i h = (
  s,
  refl,
  record { here = λ id. ground arith; elsewhere = λ other ne. refl; loaded = l; real = i },
)
remove_patches_total calls model (id ∷ ids) s w l i h =
    let s₀ = did (executed patch_off id model) s in
    let s' = set_applied model (drop_patch id (applied model s)) s₀ in
    let l' : AreLoaded s' = λ m x k. ground (
      arith,
      applied-set model m (drop_patch id (applied model s)) s₀,
      member-drop_patch id x (applied model s),
      l m x,
      l model x,
    ) in
    let i' : IsTrue s' = λ m x. ground (
      arith,
      applied-set model m (drop_patch id (applied model s)) s₀,
      member-drop_patch id x (applied model s),
      i m x,
      i model x,
      string_eq.beq_iff id x,
      string_eq.beq_iff model m,
    ) in
    let (t, e, a) = remove_patches_total calls model ids s' w l' i' (λ x k. h x (ground arith)) in
    (
      t,
      rw (h id (ground (arith, string_eq.beq_iff id id)), w.runs patch_off id model) e,
      record {
        here = λ x. ground (
          arith,
          a.here x,
          applied-set model model (drop_patch id (applied model s)) s₀,
          string_eq.beq_iff model model,
          member-drop_patch id x (applied model s),
        );
        elsewhere = λ other ne. ground (
          arith,
          a.elsewhere other ne,
          applied-set model other (drop_patch id (applied model s)) s₀,
        );
        loaded = a.loaded;
        real = a.real;
      },
    )

-- What the load of a patch that was not loaded yet gives.
abbrev with_components : Patch → Patches → Patches
with_components patch s = elim patch.path [
  | none ↦ s
  | some path ↦ did (initialized patch.id path) s
]

loaded_either :
    (calls : PatchCalls) (patch : Patch) (s : Patches)
    → IsWorking calls
    → (elim patch.path [
      | none ↦ ok s
      | some path ↦ calls.initialize patch.id path >> ok (did (initialized patch.id path) s)
    ])
      ≡ ok (with_components patch s)
loaded_either calls patch s w = elim (Option-cases patch.path) [
  | inl none_given ↦ rw none_given refl
  | inr (path, given) ↦ rw given (rw (w.loads patch.id path) refl)
]

-- A load changes nothing that stands on a model.
record IsLoad (patch : Patch) (s t : Patches) : Type 0 where
  status : t.model_patch_status ≡ s.model_patch_status
  has : (id : String) → member id t.loaded ≡ (member id s.loaded || patch.id == id)
  same : (model id : String) → stands model id t.performed ≡ stands model id s.performed

with_components-IsLoad :
    (patch : Patch) (s : Patches)
    → IsLoad patch s (with_components patch (record s { loaded = add_element patch.id s.loaded }))
with_components-IsLoad patch s = elim (Option-cases patch.path) [
  | inl none_given ↦ rw none_given (record {
    status = refl;
    has = λ id. member-add patch.id id s.loaded;
    same = λ model id. refl;
  })
  | inr (path, given) ↦ rw given (record {
    status = refl;
    has = λ id. member-add patch.id id s.loaded;
    same = λ model id. refl;
  })
]

load_patch_total :
    (calls : PatchCalls) (patch : Patch) (s : Patches)
    → IsWorking calls
    → (t : Patches) × (load_patch calls patch s ≡ ok t) × IsLoad patch s t
unfolding load_patch
load_patch_total calls patch s w = elim (Bool-cases (member patch.id s.loaded)) [
  | inl old ↦ (
    s,
    rw old refl,
    record {
      status = refl;
      has = λ id. ground (arith, string_eq.beq_iff patch.id id);
      same = λ model id. refl;
    },
  )
  | inr new ↦ (
    with_components patch (record s { loaded = add_element patch.id s.loaded }),
    rw new (loaded_either calls patch _ w),
    with_components-IsLoad patch s,
  )
]

apply_patches_total :
    (calls : PatchCalls) (model : String) (patches : List Patch) (s : Patches)
    → IsWorking calls
    → AreLoaded s
    → IsTrue s
    → (t : Patches) × (apply_patches calls model patches s ≡ ok t)
      × HasApplied model s t
          (λ id. member id (applied model s) || member id (map (λ (p : Patch). p.id) patches))
unfolding apply_patches member
apply_patches_total calls model [] s w l i = (
  s,
  refl,
  record { here = λ id. ground arith; elsewhere = λ other ne. refl; loaded = l; real = i },
)
apply_patches_total calls model (patch ∷ patches) s w l i =
    elim (Bool-cases (member patch.id (applied model s))) [
      | inl old ↦
          let (t, e, a) = apply_patches_total calls model patches s w l i in
          (
            t,
            rw old e,
            record {
              here = λ id. ground (arith, a.here id, string_eq.beq_iff patch.id id);
              elsewhere = a.elsewhere;
              loaded = a.loaded;
              real = a.real;
            },
          )
      | inr new ↦
          let (s1, loads, load) = load_patch_total calls patch s w in
          let s₀ = did (executed patch_on patch.id model) s1 in
          let ids = add_element patch.id (applied model s1) in
          let s2 = set_applied model ids s₀ in
          let same = λ (m : String).
            ap (λ d. applied m (record s₀ { model_patch_status = d })) load.status in
          let l2 : AreLoaded s2 = λ m x k. ground (
            arith,
            applied-set model m ids s₀,
            member-add patch.id x (applied model s1),
            l m x,
            l model x,
            load.has x,
            same m,
            same model,
          ) in
          let i2 : IsTrue s2 = λ m x. ground (
            arith,
            applied-set model m ids s₀,
            member-add patch.id x (applied model s1),
            i m x,
            i model x,
            load.same m x,
            same m,
            same model,
            string_eq.beq_iff patch.id x,
            string_eq.beq_iff model m,
          ) in
          let (t, e, a) = apply_patches_total calls model patches s2 w l2 i2 in
          (
            t,
            rw (new, loads, w.runs patch_on patch.id model) e,
            record {
              here = λ x. ground (
                arith,
                a.here x,
                applied-set model model ids s₀,
                string_eq.beq_iff model model,
                member-add patch.id x (applied model s1),
                same model,
              );
              elsewhere = λ other ne.
                  ground (arith, a.elsewhere other ne, applied-set model other ids s₀, same other);
              loaded = a.loaded;
              real = a.real;
            },
          )
    ]

applied-start :
    (model other : String) (s : Patches) → applied other (start_tracking model s) ≡ applied other s
applied-start model other s =
    ground (arith, applied-set model other (applied model s) s, string_eq.beq_iff model other)

start-AreLoaded : (model : String) (s : Patches) → AreLoaded s → AreLoaded (start_tracking model s)
start-AreLoaded model s l m x k = ground (arith, l m x, applied-start model m s)

start-IsTrue : (model : String) (s : Patches) → IsTrue s → IsTrue (start_tracking model s)
start-IsTrue model s i m x = ground (arith, i m x, applied-start model m s)

remove_unnecessary_total :
    (calls : PatchCalls) (model : String) (needed : List String) (s : Patches)
    → IsWorking calls
    → AreLoaded s
    → IsTrue s
    → (t : Patches) × (remove_unnecessary_patches calls model needed s ≡ ok t)
      × HasApplied model s t (λ id. member id (applied model s) && member id needed)
unfolding remove_unnecessary_patches
remove_unnecessary_total calls model needed s w l i =
    let going = select (λ id. not (member id needed)) (applied model s) in
    let (t, e, a) =
      remove_patches_total calls model going (start_tracking model s) w (start-AreLoaded model s l)
        (start-IsTrue model s i)
        (λ id k. ground (
          arith,
          member-select (λ (x : String). not (member x needed)) id (applied model s),
          l model id,
        )) in
    (
      t,
      e,
      record {
        here = λ id. ground (
          arith,
          a.here id,
          applied-start model model s,
          member-select (λ (x : String). not (member x needed)) id (applied model s),
        );
        elsewhere = λ other ne. a.elsewhere other ne ∙ applied-start model other s;
        loaded = a.loaded;
        real = a.real;
      },
    )

apply_necessary_total :
    (calls : PatchCalls) (model : String) (patches : List Patch) (s : Patches)
    → IsWorking calls
    → AreLoaded s
    → IsTrue s
    → (t : Patches) × (apply_necessary_patches calls model patches s ≡ ok t)
      × HasApplied model s t
          (λ id. member id (applied model s) || member id (map (λ (p : Patch). p.id) patches))
unfolding apply_necessary_patches
apply_necessary_total calls model patches s w l i =
    let (t, e, a) =
      apply_patches_total calls model patches (start_tracking model s) w (start-AreLoaded model s l)
        (start-IsTrue model s i) in
    (
      t,
      e,
      record {
        here = λ id. ground (arith, a.here id, applied-start model model s);
        elsewhere = λ other ne. a.elsewhere other ne ∙ applied-start model other s;
        loaded = a.loaded;
        real = a.real;
      },
    )

-- Before a task runs, its model gets exactly the patches of the task's operator, whatever stood on
-- it before: the patches whose last call put them on this model are those of the operator. The
-- status keeps saying what the calls of the operators have done, also for the other models, whose
-- patches stay as they were, and all patches that stand on a model are loaded. No call of an operator
-- may raise, and the status must be true before.
pub use_patches_total :
    (calls : PatchCalls) (model : String) (patches : List Patch) (s : Patches)
    → IsWorking calls
    → AreLoaded s
    → IsTrue s
    → (t : Patches) × (use_patches calls model patches s ≡ ok t)
      × HasApplied model s t (λ id. member id (map (λ (p : Patch). p.id) patches))
      × ((id : String)
          → stands model id t.performed ≡ member id (map (λ (p : Patch). p.id) patches))
unfolding use_patches member
use_patches_total calls model [] s w l i =
    let (t, e, a) = remove_unnecessary_total calls model [] s w l i in
    (
      t,
      rw e refl,
      record {
        here = λ id. ground (arith, a.here id);
        elsewhere = a.elsewhere;
        loaded = a.loaded;
        real = a.real;
      },
      λ id. ground (arith, a.here id, a.real model id),
    )
use_patches_total calls model (patch ∷ patches) s w l i =
    let needed = map (λ (p : Patch). p.id) (patch ∷ patches) in
    let (t, e, a) = remove_unnecessary_total calls model needed s w l i in
    let (u, f, b) = apply_necessary_total calls model (patch ∷ patches) t w a.loaded a.real in
    (
      u,
      rw e f,
      record {
        here = λ id. ground (arith, a.here id, b.here id);
        elsewhere = λ other ne. b.elsewhere other ne ∙ a.elsewhere other ne;
        loaded = b.loaded;
        real = b.real;
      },
      λ id. b.real model id ∙ ground (arith, a.here id, b.here id),
    )
