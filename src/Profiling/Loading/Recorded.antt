-- ===== src/Profiling/Loading/Recorded.antt =====
-- What is recorded of an operator and a shape (runtime_profile.py).
use diflow.Prelude.{
  ◌≡◌, refl, ap, ◌∙◌, Bool, ◌&&◌, Option, none, some, List, [], ◌∷◌, map, String, string_eq, ◌==◌,
  if◌then◌else◌, lookup, insert, lookup-insert, select, Bool-cases, inl, inr,
}
use diflow.Profiling.{
  ExecutionKey, execution_key_eq, ExecutionRuntimeProfile, OperatorRuntimeProfile,
}
use diflow.Profiling.Loading.{
  LoadEntry, OpEntry, Operators, profile_of, add_loads, merge_execution, add_op, add_ops,
}

-- What the operators have for a key of an operator.
unfoldable pub execution_of : String → ExecutionKey → Operators → Option ExecutionRuntimeProfile
unfolding profile_of
execution_of id key operators = lookup key (profile_of id operators).executions

abbrev pub is_for : String → ExecutionKey → OpEntry → Bool
is_for id key e = e.op_id == id && e.key == key

unfoldable pub merged :
    Option ExecutionRuntimeProfile → List ExecutionRuntimeProfile → Option ExecutionRuntimeProfile
merged o [] = o
merged o (x ∷ xs) = merged (some (merge_execution o x)) xs

abbrev pub results_for : String → ExecutionKey → List OpEntry → List ExecutionRuntimeProfile
results_for id key es = map (λ e. e.result) (select (is_for id key) es)

profile_of-insert :
    (id j : String) (p : OperatorRuntimeProfile) (operators : Operators)
    → profile_of id (insert j p operators) ≡ (if j == id then p else profile_of id operators)
unfolding profile_of
profile_of-insert id j p operators = elim (Bool-cases (j == id)) [
  | inl same ↦ rw (lookup-insert, same, profile_of) refl
  | inr other ↦ rw (lookup-insert, other, profile_of) refl
]

execution_of-add_op :
    (id : String) (key : ExecutionKey) (operators : Operators) (e : OpEntry)
    → execution_of id key (add_op operators e) ≡ (
        if is_for id key e
        then some (merge_execution (execution_of id key operators) e.result)
        else execution_of id key operators)
unfolding execution_of add_op
execution_of-add_op id key operators e = elim (Bool-cases (e.op_id == id)) [
  | inr other ↦ rw (profile_of-insert, other) refl
  | inl same ↦
      rw (profile_of-insert, same)
        (elim (Bool-cases (e.key == key)) [
          | inr other_key ↦
              rw (lookup-insert, other_key)
                (ap (λ x. lookup key (profile_of x operators).executions)
                  ((string_eq.beq_iff e.op_id id).0 same))
          | inl same_key ↦
              rw (lookup-insert, same_key)
                (ap
                    (λ x.
                      some (
                        merge_execution (lookup e.key (profile_of x operators).executions)
                          e.result))
                    ((string_eq.beq_iff e.op_id id).0 same)
                  ∙ ap
                      (λ k.
                        some (
                          merge_execution (lookup k (profile_of id operators).executions) e.result))
                      ((execution_key_eq.beq_iff e.key key).0 same_key))
        ])
]

pub execution_of-add_ops :
    (id : String) (key : ExecutionKey) (es : List OpEntry) (operators : Operators)
    → execution_of id key (add_ops operators es)
      ≡ merged (execution_of id key operators) (results_for id key es)
unfolding add_ops merged
execution_of-add_ops id key [] operators = refl
execution_of-add_ops id key (e ∷ es) operators = elim (Bool-cases (is_for id key e)) [
  | inl mine ↦
      rw
        (
          execution_of-add_ops id key es (add_op operators e),
          execution_of-add_op id key operators e,
        )
        (rw mine refl)
  | inr other ↦
      rw
        (
          execution_of-add_ops id key es (add_op operators e),
          execution_of-add_op id key operators e,
        )
        (rw other refl)
]

-- Loading a model measures nothing.
pub execution_of-add_loads :
    (id : String) (key : ExecutionKey) (es : List LoadEntry) (operators : Operators)
    → execution_of id key operators ≡ none
    → execution_of id key (add_loads operators es) ≡ none
unfolding add_loads execution_of
execution_of-add_loads id key [] operators h = h
execution_of-add_loads id key (e ∷ es) operators h =
    execution_of-add_loads id key es _ (elim (Bool-cases (e.op_id == id)) [
      | inr other ↦ rw (profile_of-insert, other) h
      | inl same ↦
          rw (profile_of-insert, same)
            (ap (λ x. lookup key (profile_of x operators).executions)
                ((string_eq.beq_iff e.op_id id).0 same)
              ∙ h)
    ])
