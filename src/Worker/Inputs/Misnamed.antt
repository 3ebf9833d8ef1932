-- ===== src/Worker/Inputs/Misnamed.antt =====
-- An input that is an output of the workflow too (coordinator.py, worker.py).
use diflow.Prelude.{
  ℕ, ◌≡◌, refl, ◌∙◌, arith, false, none, some, [], ◌∷◌, String, string_eq, ◌==◌, Dict, lookup,
  insert, ok, raise, value_error,
}
use diflow.Workflow.{NodeIo, WorkflowNode}
use diflow.Coordinator.Inputs.{
  RequestSources, Prepared, unprepared, prepare_eager, prepare_inputs, prepare_task_inputs,
  prepare_outputs,
}
use diflow.Coordinator.Inputs.Entries.{entry_of, no_entry, prepare_outputs-entry}
use diflow.Worker.Inputs.{Engine, Collected, collect_input, collect_inputs}

module _ {V T : Type 0} (engine : Engine T) (s : RequestSources V) (rank : ℕ) (request : String)
    (name final : String) (io : NodeIo) where
  -- The task of a node that reads the value only.
  abbrev misnamed : V → Prepared V
  misnamed v = record unprepared {
    input_map = (name, io.name) ∷ [];
    node_inputs = (final, some v) ∷ [];
  }

  prepare_misnamed :
      (results : Dict String V) (v : V)
      → io.lazy ≡ false
      → lookup io.name s.inputs ≡ none
      → lookup io.name s.required_outputs ≡ some final
      → s.results ≡ some results
      → lookup final results ≡ some v
      → prepare_inputs s ((name, io) ∷ []) unprepared ≡ ok (misnamed v)
  unfolding prepare_inputs insert
  prepare_misnamed results v eager not_given out made has_value =
      rw (eager, not_given, out, made, prepare_eager) (rw has_value refl)

  collect_misnamed :
      (p : Prepared V) (v : V) (c : Collected V T)
      → entry_of name p ≡ no_entry
      → collect_inputs engine rank request p ((name, io) ∷ []) c ≡ raise value_error
  unfolding collect_inputs
  collect_misnamed p v c says =
      let no_copies : lookup name p.node_input_locations ≡ none = ground arith in
      let not_later : lookup name p.lazy_inputs ≡ none = ground arith in
      let no_value : lookup name p.node_inputs ≡ none = ground arith in
      rw (no_copies, not_later, no_value, collect_input) refl

-- The only input of a node is, under `name`, a value that is also an output of the workflow, under
-- another name. The coordinator has the value, yet prepares the task without an input `name`, and the
-- worker that gets the task raises a ValueError.
pub prepare_task_inputs-misnames :
    {V T : Type 0} (engine : Engine T) (s : RequestSources V) (rank : ℕ) (request : String)
    (n : WorkflowNode) (c : Collected V T) (name final : String) (io : NodeIo)
    (results : Dict String V) (v : V)
    → n.inputs ≡ (name, io) ∷ []
    → io.lazy ≡ false
    → lookup io.name s.inputs ≡ none
    → lookup io.name s.required_outputs ≡ some final
    → s.results ≡ some results
    → lookup final results ≡ some v
    → (final == name) ≡ false
    → (p : Prepared V) × (prepare_task_inputs s n ≡ ok p)
      × (lookup final p.node_inputs ≡ some (some v))
      × (lookup name p.node_inputs ≡ none)
      × (collect_inputs engine rank request p n.inputs c ≡ raise value_error)
unfolding prepare_task_inputs lookup
prepare_task_inputs-misnames engine s rank request n c name final io results v shape eager not_given
      out made has_value other =
    let task = misnamed engine s rank request name final io v in
    let p = prepare_outputs s n.outputs task in
    let prepared =
      prepare_misnamed engine s rank request name final io results v eager not_given out made
        has_value in
    let says = prepare_outputs-entry s n.outputs task in
    let nothing : entry_of name p ≡ no_entry = says name ∙ ground arith in
    (
      p,
      rw shape (rw prepared refl),
      ground (arith, says final, string_eq.beq_iff final final),
      ground arith,
      rw shape (collect_misnamed engine s rank request name final io p v c nothing),
    )
