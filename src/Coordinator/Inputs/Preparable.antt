-- ===== src/Coordinator/Inputs/Preparable.antt =====
-- When the preparation of a task returns (coordinator.py).
use diflow.Prelude.{
  ◌≡◌, refl, Bool, true, false, ◌||◌, none, some, [], ◌∷◌, String, string_eq, Dict, All, lookup,
  insert, contains, ok, Bool-cases, Option-cases, inl, inr,
}
use diflow.Workflow.{NodeIo, WorkflowNode}
use diflow.Coordinator.Inputs.{
  RequestSources, Prepared, unprepared, add_lazy, add_value, add_location, prepare_eager,
  prepare_input, prepare_inputs, prepare_outputs, prepare_task_inputs,
}

module _ {V : Type 0} where
  -- The value of an output of the workflow is there, under the output's final name.
  abbrev pub has_result : RequestSources V → String → Bool
  has_result s final = elim s.results [ none ↦ false | some results ↦ contains final results ]

  abbrev pub is_stored_output : RequestSources V → String → Bool
  is_stored_output s tensor = elim (lookup tensor s.required_outputs) [
    | none ↦ true
    | some final ↦ has_result s final
  ]

  -- An input that is an output of the workflow, and neither lazy nor given with the request, has its
  -- result.
  abbrev pub IsPreparable : RequestSources V → String × NodeIo → Type 0
  IsPreparable s e =
      (e.1.lazy || (contains e.1.name s.inputs || is_stored_output s e.1.name)) ≡ true

  prepare_eager_returns :
      (s : RequestSources V) (name tensor : String) (p : Prepared V)
      → (contains tensor s.inputs || is_stored_output s tensor) ≡ true
      → (p' : Prepared V) × (prepare_eager s name tensor p ≡ ok p')
  unfolding prepare_eager
  prepare_eager_returns s name tensor p h = elim (Option-cases (lookup tensor s.inputs)) [
    | inr (value, given) ↦ (add_value name (some value) p, rw (given, prepare_eager) refl)
    | inl not_given ↦ elim (Option-cases (lookup tensor s.required_outputs)) [
      | inr (final, out) ↦
          let stored : has_result s final ≡ true = rw (not_given, out, is_stored_output) at h in
          elim (Option-cases s.results) [
            | inl nothing ↦ let no : false ≡ true = rw nothing at stored in cc
            | inr (results, some_results) ↦ elim (Option-cases (lookup final results)) [
              | inl missing ↦ let no : false ≡ true = rw (some_results, missing) at stored in cc
              | inr (value, found) ↦ (
                add_value final (some value) p,
                rw (not_given, out, prepare_eager) (rw (some_results, found) refl),
              )
            ]
          ]
      | inl inside ↦ elim (Option-cases (lookup tensor s.tensor_map)) [
        | inr (copies, stored) ↦
            (add_location name copies p, rw (not_given, inside, stored, prepare_eager) refl)
        | inl missing ↦ (p, rw (not_given, inside, missing, prepare_eager) refl)
      ]
    ]
  ]

  prepare_input_returns :
      (s : RequestSources V) (name : String) (io : NodeIo) (p : Prepared V)
      → IsPreparable s (name, io)
      → (p' : Prepared V) × (prepare_input s name io p ≡ ok p')
  unfolding prepare_input
  prepare_input_returns s name io p h =
      let mapped = record p { input_map = insert name io.name p.input_map } in
      elim (Bool-cases io.lazy) [
        | inl lazy ↦ (add_lazy name io.name mapped, rw lazy refl)
        | inr eager ↦
            let (p', e) = prepare_eager_returns s name io.name mapped (rw eager at h) in
            (p', rw eager e)
      ]

  prepare_inputs_returns :
      (s : RequestSources V) (inputs : Dict String NodeIo) (p : Prepared V)
      → All (IsPreparable s) inputs
      → (p' : Prepared V) × (prepare_inputs s inputs p ≡ ok p')
  unfolding prepare_inputs
  prepare_inputs_returns s [] p h = (p, refl)
  prepare_inputs_returns s ((name, io) ∷ inputs) p h =
      let (p₁, e) = prepare_input_returns s name io p h.0 in
      let (p₂, f) = prepare_inputs_returns s inputs p₁ h.1 in (p₂, rw e f)

  pub prepare_task_inputs_returns :
      (s : RequestSources V) (n : WorkflowNode)
      → All (IsPreparable s) n.inputs
      → (p : Prepared V) × (prepare_task_inputs s n ≡ ok p)
  unfolding prepare_task_inputs
  prepare_task_inputs_returns s n h =
      let (p, e) = prepare_inputs_returns s n.inputs unprepared h in
      (prepare_outputs s n.outputs p, rw e refl)
