-- ===== src/Profiling/Loading/Merged.antt =====
-- A shape that was measured more than once (runtime_profile.py).
use diflow.Prelude.{
  ℕ, ◌≤◌, ◌≡◌, refl, sym, ap, ◌∙◌, arith, Bool, true, false, ◌&&◌, none, some, List, [], ◌∷◌,
  String, string_eq, nat_beq, lookup, ok, require-eq-ok, unusable_profile, ok-injective, every, max,
  All, ◌⊎◌, Bool-cases, inl, inr,
}
use diflow.Profiling.{
  ExecutionKey, execution_key_eq, ExecutionRuntimeProfile, successful, OperatorRuntimeProfile,
  RuntimeProfile,
}
use diflow.Profiling.Loading.{
  LoadEntry, OpEntry, Operators, profile_of, add_loads, merge_execution, or_zero, add_ops,
  from_payload,
}
use diflow.Profiling.Loading.Recorded.{
  execution_of, merged, results_for, execution_of-add_ops, execution_of-add_loads,
}

merge_cases :
    (x c : ExecutionRuntimeProfile)
    → ((successful x && successful c) ≡ true)
        × (successful (merge_execution (some x) c) ≡ true)
        × ((merge_execution (some x) c).latency_seconds
            ≡ some (max (or_zero x.latency_seconds) (or_zero c.latency_seconds)))
      ⊎ ((successful x && successful c) ≡ false) × (successful (merge_execution (some x) c) ≡ false)
unfolding merge_execution
merge_cases x c = elim (Bool-cases (successful x && successful c)) [
  | inl works ↦ inl (works, rw (works, merge_execution) refl, rw (works, merge_execution) refl)
  | inr fails ↦ inr (fails, rw (fails, merge_execution) refl)
]

some-injective : {A : Type 0} {a b : A} → some a ≡ some b → a ≡ b
some-injective h = cc

and_true : (b : Bool) → b ≡ (b && true)
and_true b = ground arith

and_chain : (x m f c r : Bool) → x ≡ (m && r) → (f && c) ≡ m → x ≡ (f && (c && r))
and_chain x m f c r h k = ground arith

merged-successful :
    (xs : List ExecutionRuntimeProfile) (first x : ExecutionRuntimeProfile)
    → merged (some first) xs ≡ some x
    → successful x ≡ (successful first && every successful xs)
unfolding merged
merged-successful [] first x e =
    sym (ap successful (some-injective e)) ∙ and_true (successful first)
merged-successful (c ∷ xs) first x e =
    let rest = merged-successful xs (merge_execution (some first) c) x e in
    elim (merge_cases first c) [
      | inl (works, merges, latency) ↦
          and_chain (successful x) (successful (merge_execution (some first) c)) (successful first)
            (successful c) (every successful xs) rest (works ∙ sym merges)
      | inr (fails, merges) ↦
          and_chain (successful x) (successful (merge_execution (some first) c)) (successful first)
            (successful c) (every successful xs) rest (fails ∙ sym merges)
    ]

-- No measurement of a key is above what is kept of it.
merged-bound :
    (xs : List ExecutionRuntimeProfile) (first x : ExecutionRuntimeProfile)
    → merged (some first) xs ≡ some x
    → successful x ≡ true
    → (or_zero first.latency_seconds ≤ or_zero x.latency_seconds)
      × All (λ r. or_zero r.latency_seconds ≤ or_zero x.latency_seconds) xs
unfolding merged
merged-bound [] first x e works =
    let same = ap (λ y. or_zero y.latency_seconds) (some-injective e) in (omega arith, tt)
merged-bound (c ∷ xs) first x e works =
    let (bound, rest) = merged-bound xs (merge_execution (some first) c) x e works in
    let all = merged-successful xs (merge_execution (some first) c) x e in
    elim (merge_cases first c) [
      | inl (both, merges, latency) ↦
          let top = ap or_zero latency in (omega arith, (omega arith, rest))
      | inr (fails, merges) ↦
          let no : true ≡ false = sym works ∙ all ∙ ap (λ m. m && every successful xs) merges in cc
    ]

execution_of-empty : (id : String) (key : ExecutionKey) → execution_of id key [] ≡ none
unfolding execution_of profile_of lookup
execution_of-empty id key = refl

from_payload-operators :
    (version : ℕ) (loads : List LoadEntry) (ops : List OpEntry) (failures : List (ℕ × ℕ))
    (p : RuntimeProfile)
    → from_payload version loads ops failures ≡ ok p
    → add_ops (add_loads [] loads) ops ≡ p.operators
unfolding from_payload
from_payload-operators version loads ops failures p e =
    let (_, e1) = require-eq-ok (nat_beq version 2) unusable_profile e in
    let (_, e2) = require-eq-ok _ unusable_profile e1 in
    let (_, e3) = require-eq-ok _ unusable_profile e2 in ap (λ q. q.operators) (ok-injective e3)

execution_of-lookup :
    (id : String) (key : ExecutionKey) (operators : Operators) (op : OperatorRuntimeProfile)
    → lookup id operators ≡ some op
    → execution_of id key operators ≡ lookup key op.executions
unfolding execution_of profile_of
execution_of-lookup id key operators op h = rw (h, profile_of) refl

merged_agrees :
    (xs : List ExecutionRuntimeProfile) (x : ExecutionRuntimeProfile)
    → merged none xs ≡ some x
    → (successful x ≡ every successful xs)
      × (successful x ≡ true → All (λ r. or_zero r.latency_seconds ≤ or_zero x.latency_seconds) xs)
unfolding merged merge_execution
merged_agrees [] x h = cc
merged_agrees (c ∷ xs) x h = (merged-successful xs c x h, merged-bound xs c x h)

-- What a loaded profile says of a shape is what all measurements of it say: it is successful if and
-- only if each of them is, and its latency is then at least that of each.
pub from_payload-merges :
    (version : ℕ) (loads : List LoadEntry) (ops : List OpEntry) (failures : List (ℕ × ℕ))
    (p : RuntimeProfile) (id : String) (op : OperatorRuntimeProfile) (key : ExecutionKey)
    (x : ExecutionRuntimeProfile)
    → from_payload version loads ops failures ≡ ok p
    → lookup id p.operators ≡ some op
    → lookup key op.executions ≡ some x
    → (successful x ≡ every successful (results_for id key ops))
      × (successful x ≡ true
          → All
              (λ r. or_zero r.latency_seconds ≤ or_zero x.latency_seconds)
              (results_for id key ops))
from_payload-merges version loads ops failures p id op key x e known found =
    merged_agrees (results_for id key ops) x (
      sym (
        execution_of-add_ops id key ops (add_loads [] loads)
        ∙ ap (λ o. merged o (results_for id key ops))
            (execution_of-add_loads id key loads [] (execution_of-empty id key)))
      ∙ ap (execution_of id key) (from_payload-operators version loads ops failures p e)
      ∙ execution_of-lookup id key p.operators op known
      ∙ found)
