-- ===== src/Coordinator/Inputs/Lazies.antt =====
-- The lazy inputs of a prepared task (coordinator.py).
use mathlib.Core.Path.{subst}
use diflow.Prelude.{
  ◌≡◌, refl, sym, ap, ◌∙◌, [], ◌∷◌, String, string_eq, Dict, IsDict, lookup, insert, insert-IsDict,
  ok, ok-injective, >>=-eq-ok, or_raise, key_error, Bool-cases, Option-cases, inl, inr,
}
use diflow.Workflow.{NodeIo, WorkflowNode}
use diflow.Coordinator.Inputs.{
  RequestSources, Prepared, unprepared, add_result, prepare_eager, prepare_input, prepare_inputs,
  prepare_outputs, prepare_task_inputs,
}

module _ {V : Type 0} where
  abbrev lazies : Prepared V → Dict String String
  lazies p = p.lazy_inputs

  add_result-lazies :
      (s : RequestSources V) (final : String) (p p' : Prepared V)
      → add_result s final p ≡ ok p'
      → lazies p' ≡ lazies p
  add_result-lazies s final p p' e =
      let (results, _, e₁) = >>=-eq-ok (or_raise key_error s.results) _ e in
      let (value, _, e₂) = >>=-eq-ok (or_raise key_error (lookup final results)) _ e₁ in
      ap lazies (sym (ok-injective e₂))

  prepare_eager-lazies :
      (s : RequestSources V) (name tensor : String) (p p' : Prepared V)
      → prepare_eager s name tensor p ≡ ok p'
      → lazies p' ≡ lazies p
  unfolding prepare_eager
  prepare_eager-lazies s name tensor p p' e = elim (Option-cases (lookup tensor s.inputs)) [
    | inr (value, given) ↦ ap lazies (sym (ok-injective (rw (given, prepare_eager) at e)))
    | inl not_given ↦ elim (Option-cases (lookup tensor s.required_outputs)) [
      | inr (final, out) ↦ add_result-lazies s final p p' (rw (not_given, out, prepare_eager) at e)
      | inl inside ↦ elim (Option-cases (lookup tensor s.tensor_map)) [
        | inr (copies, stored) ↦
            ap lazies (sym (ok-injective (rw (not_given, inside, stored, prepare_eager) at e)))
        | inl missing ↦
            ap lazies (sym (ok-injective (rw (not_given, inside, missing, prepare_eager) at e)))
      ]
    ]
  ]

  prepare_inputs-IsDict :
      (s : RequestSources V) (inputs : Dict String NodeIo) (p p' : Prepared V)
      → prepare_inputs s inputs p ≡ ok p'
      → IsDict (lazies p)
      → IsDict (lazies p')
  unfolding prepare_inputs prepare_input
  prepare_inputs-IsDict s [] p p' e once = subst (λ q. IsDict (lazies q)) (ok-injective e) once
  prepare_inputs-IsDict s ((name, io) ∷ inputs) p p' e once =
      let mapped = record p { input_map = insert name io.name p.input_map } in
      let (p₁, first, rest) = >>=-eq-ok (prepare_input s name io p) _ e in
      prepare_inputs-IsDict s inputs p₁ p' rest (elim (Bool-cases io.lazy) [
        | inl lazy ↦
            subst (λ q. IsDict (lazies q)) (ok-injective (rw lazy at first))
              (insert-IsDict name io.name p.lazy_inputs once)
        | inr eager ↦
            subst IsDict (sym (prepare_eager-lazies s name io.name mapped p₁ (rw eager at first)))
              once
      ])

  prepare_outputs-lazies :
      (s : RequestSources V) (outputs : Dict String NodeIo) (p : Prepared V)
      → lazies (prepare_outputs s outputs p) ≡ lazies p
  unfolding prepare_outputs
  prepare_outputs-lazies s [] p = refl
  prepare_outputs-lazies s ((key, io) ∷ outputs) p = prepare_outputs-lazies s outputs _

  pub prepare_task_inputs-IsDict :
      (s : RequestSources V) (n : WorkflowNode) (p : Prepared V)
      → prepare_task_inputs s n ≡ ok p
      → IsDict p.lazy_inputs
  unfolding prepare_task_inputs
  prepare_task_inputs-IsDict s n p e =
      let (q, prepared, finished) = >>=-eq-ok (prepare_inputs s n.inputs unprepared) _ e in
      subst IsDict (sym (prepare_outputs-lazies s n.outputs q) ∙ ap lazies (ok-injective finished))
        (prepare_inputs-IsDict s n.inputs unprepared q prepared tt)
