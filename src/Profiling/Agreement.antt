-- ===== src/Profiling/Agreement.antt =====
-- Admission control and the scheduling core read one profile, the one through runtime_profile.py, the
-- other through scheduling_core.py.
use mathlib.Core.Path.{subst}
use diflow.Prelude.{
  ℕ, ◌≤◌, ◌≡◌, refl, sym, ap, ◌∙◌, arith, true, ◌&&◌, Option, none, some, List, [], ◌∷◌, map,
  String, string_eq, ◌==◌, ltb, Dict, lookup, mem_of_All, Bool-cases, Option-cases, inl, inr, ok,
  raise, or_raise, assertion_error, missing_profile, unsupported_profile, >>=-eq-ok, ok-injective,
  or_raise-eq-ok,
}
use diflow.Latency.{Latency, fin, Le, Le-refl}
use diflow.SchedulingCore.Profile.{
  ModelProfile, key_eq, next_power_of_2, exact_latency, candidates, nearest_latency, or_else,
  lookup_execution_latency,
}
use diflow.SchedulingCore.Profile.Least.{nearest_latency-least}
use diflow.Profiling.{
  ExecutionKey, execution_key, execution_key_eq, ExecutionRuntimeProfile, successful,
  OperatorRuntimeProfile, RuntimeProfile, adjust_batch_size, Candidate, execution_candidates,
  nearest_from, nearest_execution, is_failed, execution_at, execution, execution_latency, measured,
  scheduling_latencies, to_scheduling_profile, to_scheduling_profiles,
}
use diflow.Profiling.Measured.{
  as_pair, latency_of, nearest_from-le, nearest_from-All, nearest_from-mem, is_positive,
  AllPositive, candidates-scheduling_latencies, lookup-scheduling_latencies,
  lookup-scheduling_latencies_missing,
}

raised : {A : Type 0} {x : A} → raise unsupported_profile ≡ ok x → ⊥
raised h = cc

some-injective : {A : Type 0} {a b : A} → some a ≡ some b → a ≡ b
some-injective h = cc

lookup-to_scheduling_profiles :
    (p : RuntimeProfile) (id : String) (profile : OperatorRuntimeProfile)
    → lookup id p.operators ≡ some profile
    → lookup id (to_scheduling_profiles p) ≡ some (to_scheduling_profile profile)
unfolding to_scheduling_profiles lookup
lookup-to_scheduling_profiles p id profile h = go p.operators h
  where
    go :
        (ops : Dict String OperatorRuntimeProfile)
        → lookup id ops ≡ some profile
        → lookup id (map (λ e. (e.0, to_scheduling_profile e.1)) ops)
          ≡ some (to_scheduling_profile profile)
    go [] h = cc
    go ((k, v) ∷ ops) h = elim (Bool-cases (k == id)) [
      | inl same ↦ rw same (ap some (ap to_scheduling_profile (some-injective (rw same at h))))
      | inr other ↦ rw other (go ops (rw other at h))
    ]

next_power_of_2-eq : (n : ℕ) → next_power_of_2 n ≡ adjust_batch_size n
unfolding next_power_of_2 adjust_batch_size
next_power_of_2-eq n = refl

nearest_execution-Le :
    (cs : List Candidate) (x : ExecutionRuntimeProfile) (l : ℕ)
    → nearest_execution cs ≡ ok x
    → x.latency_seconds ≡ some l
    → Le (nearest_latency (map as_pair cs)) (fin l)
unfolding nearest_execution
nearest_execution-Le [] x l e value = cc
nearest_execution-Le (c ∷ cs) x l e value =
    let r = nearest_from c cs in
    let (m, mem, first, (near, fast)) =
      nearest_latency-least (map as_pair (c ∷ cs)) (as_pair r) (nearest_from-mem cs c) in
    let bound =
      mem_of_All (λ (q : ℕ × Latency). r.distance ≤ q.0) m (map as_pair (c ∷ cs))
        (nearest_from-le cs c, nearest_from-All cs c r.distance refl) mem in
    let latency : latency_of r.execution ≡ fin l = ap latency_of (ok-injective e) ∙ rw value refl in
    subst (λ y. Le y (fin l)) (sym first) (subst (λ y. Le m.1 y) latency (fast (omega arith)))

lookup-positive :
    (m : String) (b h w : ℕ) (es : Dict ExecutionKey ExecutionRuntimeProfile)
    (x : ExecutionRuntimeProfile)
    → AllPositive es
    → lookup (execution_key m b h w) es ≡ some x
    → (ltb 0 h && ltb 0 w) ≡ true
unfolding lookup
lookup-positive m b h w [] x positive found = cc
lookup-positive m b h w ((k, y) ∷ es) x (positive, rest) found =
    elim (Bool-cases (k == execution_key m b h w)) [
      | inl same ↦
          subst (λ key. is_positive key ≡ true)
            ((execution_key_eq.beq_iff k (execution_key m b h w)).0 same) positive
      | inr other ↦ lookup-positive m b h w es x rest (rw other at found)
    ]

module _ (profile : OperatorRuntimeProfile) (mode : String) (batch height width : ℕ) where
  abbrev handed : ModelProfile
  handed = to_scheduling_profile profile

  exact-measured :
      (x : ExecutionRuntimeProfile) (l : ℕ)
      → AllPositive profile.executions
      → lookup (execution_key mode batch height width) profile.executions ≡ some x
      → successful x ≡ true
      → x.latency_seconds ≡ some l
      → exact_latency handed mode batch height width ≡ some (fin l)
  unfolding to_scheduling_profile measured
  exact-measured x l positive found works value =
      rw (lookup-positive mode batch height width profile.executions x positive found) (
        lookup-scheduling_latencies mode batch height width profile.executions x l found
          (rw works value))

  exact-missing :
      lookup (execution_key mode batch height width) profile.executions ≡ none
      → exact_latency handed mode batch height width ≡ none
  unfolding to_scheduling_profile
  exact-missing missing = elim (Bool-cases (ltb 0 height && ltb 0 width)) [
    | inl shaped ↦
        rw shaped
          (lookup-scheduling_latencies_missing mode batch height width profile.executions missing)
    | inr degenerate ↦ rw degenerate refl
  ]

lookup_execution_latency-eq :
    (model : ModelProfile) (mode : String) (batch_size batch height width : ℕ) (o : Option Latency)
    → next_power_of_2 batch_size ≡ ok batch
    → exact_latency model mode batch height width ≡ o
    → lookup_execution_latency model mode batch_size height width
      ≡ ok (
          or_else o
            (nearest_latency (candidates mode batch height width model.execution_latencies)))
unfolding lookup_execution_latency
lookup_execution_latency-eq model mode batch_size batch height width o adjusted exact =
    rw (adjusted, lookup_execution_latency) (rw exact refl)

at_batch :
    (profile : OperatorRuntimeProfile) (failures : List (ℕ × ℕ)) (mode : String)
    (batch_size batch height width l : ℕ) (x : ExecutionRuntimeProfile)
    → AllPositive profile.executions
    → next_power_of_2 batch_size ≡ ok batch
    → execution_at profile failures mode batch height width ≡ ok x
    → x.latency_seconds ≡ some l
    → (latency : Latency) × (lookup_execution_latency
          (to_scheduling_profile profile)
          mode
          batch_size
          height
          width
        ≡ ok latency)
      × Le latency (fin l)
unfolding execution_at lookup_execution_latency to_scheduling_profile
at_batch profile failures mode batch_size batch height width l x positive adjusted e value =
    elim (Option-cases (lookup (execution_key mode batch height width) profile.executions)) [
      | inr (exact, found) ↦
          let e' = rw (found, execution_at) at e in
          elim (Bool-cases (successful exact)) [
            | inr failed ↦ absurd (raised (rw failed at e'))
            | inl works ↦
                let same : exact ≡ x = ok-injective (rw works at e') in
                let value' : exact.latency_seconds ≡ some l =
                  ap (λ y. y.latency_seconds) same ∙ value in
                (
                  fin l,
                  lookup_execution_latency-eq (to_scheduling_profile profile) mode batch_size batch
                      height width (some (fin l)) adjusted
                      (exact-measured profile mode batch height width exact l positive found works
                        value'),
                  Le-refl (fin l),
                )
          ]
      | inl missing ↦
          let e' = rw (missing, execution_at) at e in
          elim (Bool-cases (is_failed height width failures)) [
            | inl failed ↦ absurd (raised (rw failed at e'))
            | inr fine ↦
                let nearest = rw fine at e' in
                (
                  nearest_latency (
                      candidates mode batch height width (scheduling_latencies profile.executions)),
                  lookup_execution_latency-eq (to_scheduling_profile profile) mode batch_size batch
                      height width none adjusted
                      (exact-missing profile mode batch height width missing),
                  rw
                      (candidates-scheduling_latencies mode batch height width profile.executions
                        positive)
                      (nearest_execution-Le
                        (execution_candidates mode batch height width profile.executions) x l
                        nearest value),
                )
          ]
    ]

-- The latency that the scheduling core takes for a group is at most the one that admission control
-- takes for it: where the profile gives a latency, the core finds a latency in what it was handed,
-- and no greater one. The measured shapes are positive; that the two may differ is due to shapes
-- that are equally near, among which the core takes the fastest.
pub lookup_execution_latency-le :
    (p : RuntimeProfile) (profile : OperatorRuntimeProfile) (id mode : String)
    (batch_size height width l : ℕ)
    → lookup id p.operators ≡ some profile
    → AllPositive profile.executions
    → execution_latency p id mode batch_size height width ≡ ok l
    → (model : ModelProfile) × (latency : Latency) × (lookup id (to_scheduling_profiles p)
        ≡ some model)
      × (lookup_execution_latency model mode batch_size height width ≡ ok latency)
      × Le latency (fin l)
unfolding execution_latency execution
lookup_execution_latency-le p profile id mode batch_size height width l known positive e =
    let (x, found, e1) = >>=-eq-ok (execution p id mode batch_size height width) _ e in
    let value : x.latency_seconds ≡ some l = or_raise-eq-ok assertion_error x.latency_seconds e1 in
    let (op, is_op, e2) = >>=-eq-ok (or_raise missing_profile (lookup id p.operators)) _ found in
    let (batch, adjusted, e3) = >>=-eq-ok (adjust_batch_size batch_size) _ e2 in
    let same : op ≡ profile =
      some-injective (sym (or_raise-eq-ok missing_profile (lookup id p.operators) is_op) ∙ known) in
    let (latency, looked_up, le) =
      at_batch profile p.failed_resolutions mode batch_size batch height width l x positive
        (next_power_of_2-eq batch_size ∙ adjusted)
        (subst (λ o. execution_at o p.failed_resolutions mode batch height width ≡ ok x) same e3)
        value in
    (
      to_scheduling_profile profile,
      latency,
      lookup-to_scheduling_profiles p id profile known,
      looked_up,
      le,
    )
