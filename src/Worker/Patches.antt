-- ===== src/Worker/Patches.antt =====
-- The patches on a worker's models (worker.py): which are loaded, which stand on which model, and
-- how a task gets exactly those that it needs. Whether an operator call raises is an argument:
-- `initialize` loads a patch, `execute` puts it on a model or takes it off. The calls that return are
-- recorded.
pub mod Needed
use diflow.Prelude.{
  ℕ, Bool, true, false, not, Option, none, some, List, [], ◌∷◌, map, String, ◌==◌, string_eq,
  if◌then◌else◌, Dict, lookup, insert, contains, Outcome, ok, ◌>>=◌, ◌>>◌, member, add_element,
  select,
}

pub data PatchMode : Type 0 where
  patch_on patch_off : PatchMode

-- A patch with `patch.config.model_path`, where it has a configuration.
pub record Patch : Type 0 where
  pub id : String
  pub path : Option String

-- A call of an operator that returned.
pub data PatchCall : Type 0 where
  initialized : (id path : String) → PatchCall
  executed : (mode : PatchMode) (id model : String) → PatchCall

pub record Patches : Type 0 where
  -- the keys of `patches`
  pub loaded : List String
  pub model_patch_status : Dict String (List String)
  -- the calls of operators so far, newest first
  pub performed : List PatchCall

-- The operator calls, on a patch's id and a model's id.
pub record PatchCalls : Type 0 where
  pub initialize : String → String → Outcome (Unit {0})
  pub execute : PatchMode → String → String → Outcome (Unit {0})

-- `model_patch_status[model_id]`, or an empty set before the first task.
abbrev pub applied : String → Patches → List String
applied model s = elim (lookup model s.model_patch_status) [ none ↦ [] | some ids ↦ ids ]

abbrev pub set_applied : String → List String → Patches → Patches
set_applied model ids s = record s { model_patch_status = insert model ids s.model_patch_status }

abbrev pub did : PatchCall → Patches → Patches
did call s = record s { performed = call ∷ s.performed }

-- A call of an operator, on the record of calls when it returns.
abbrev pub execute : PatchCalls → PatchMode → String → String → Patches → Outcome Patches
execute calls mode id model s = calls.execute mode id model >> ok (did (executed mode id model) s)

abbrev pub initialize : PatchCalls → String → String → Patches → Outcome Patches
initialize calls id path s = calls.initialize id path >> ok (did (initialized id path) s)

-- The first lines of both methods: an entry for the model.
abbrev pub start_tracking : String → Patches → Patches
start_tracking model s = set_applied model (applied model s) s

abbrev pub drop_patch : String → List String → List String
drop_patch id = select (λ other. not (other == id))

-- The loop of `_remove_unnecessary_patches`, over the patches that go.
unfoldable pub remove_patches : PatchCalls → String → List String → Patches → Outcome Patches
remove_patches calls model [] s = ok s
remove_patches calls model (id ∷ ids) s =
    let skipped = remove_patches calls model ids s in
    let removed = execute calls patch_off id model s >>= λ s'.
    remove_patches calls model ids (set_applied model (drop_patch id (applied model s)) s') in
    if member id s.loaded then removed else skipped

unfoldable pub remove_unnecessary_patches :
    PatchCalls → String → List String → Patches → Outcome Patches
unfolding remove_patches
remove_unnecessary_patches calls model needed s =
    remove_patches calls model (select (λ id. not (member id needed)) (applied model s))
      (start_tracking model s)

-- A patch is loaded once; one without a path has no components.
unfoldable pub load_patch : PatchCalls → Patch → Patches → Outcome Patches
load_patch calls patch s =
    let added = record s { loaded = add_element patch.id s.loaded } in
    if member patch.id s.loaded
    then ok s
    else elim patch.path [ none ↦ ok added | some path ↦ initialize calls patch.id path added ]

-- The loop of `_apply_necessary_patches`.
unfoldable pub apply_patches : PatchCalls → String → List Patch → Patches → Outcome Patches
unfolding load_patch
apply_patches calls model [] s = ok s
apply_patches calls model (patch ∷ patches) s =
    let skipped = apply_patches calls model patches s in
    let put = load_patch calls patch s >>= λ loaded.
    execute calls patch_on patch.id model loaded >>= λ s'.
    apply_patches calls model patches
      (set_applied model (add_element patch.id (applied model loaded)) s') in
    if member patch.id (applied model s) then skipped else put

unfoldable pub apply_necessary_patches :
    PatchCalls → String → List Patch → Patches → Outcome Patches
unfolding apply_patches
apply_necessary_patches calls model patches s =
    apply_patches calls model patches (start_tracking model s)

-- The part of `process_task` between the load of the model and its run.
unfoldable pub use_patches : PatchCalls → String → List Patch → Patches → Outcome Patches
unfolding remove_unnecessary_patches apply_necessary_patches
use_patches calls model patches s =
    remove_unnecessary_patches calls model (map (λ p. p.id) patches) s >>= λ s'. elim patches [
      | [] ↦ ok s'
      | p ∷ ps ↦ apply_necessary_patches calls model (p ∷ ps) s'
    ]
