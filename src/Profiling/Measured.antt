-- ===== src/Profiling/Measured.antt =====
-- The nearest of the measurements of an operator (runtime_profile.py).
use mathlib.Core.List.{Memᴰ}
use diflow.Prelude.{
  ℕ, ◌≤◌, ◌≡◌, refl, sym, ap, ◌∙◌, arith, Bool, true, false, ◌&&◌, none, some, List, [], ◌∷◌, map,
  String, string_eq, ◌==◌, ltb, nat_beq, Dict, lookup, All, Bool-cases, Option-cases, ◌⊎◌, inl, inr,
}
use diflow.Latency.{Latency, fin, inf}
use diflow.SchedulingCore.Profile.{shape_key, key_eq, candidates}
use diflow.Profiling.{
  ExecutionKey, execution_key, execution_key_eq, ExecutionRuntimeProfile, successful, Candidate,
  execution_candidates, nearer, closer, nearest_from, measured, to_key, scheduling_latencies,
}

some-injective : {A : Type 0} {a b : A} → some a ≡ some b → a ≡ b
some-injective h = cc

abbrev pub latency_of : ExecutionRuntimeProfile → Latency
latency_of x = elim x.latency_seconds [ none ↦ inf | some l ↦ fin l ]

-- What the scheduling core sees of a candidate.
abbrev pub as_pair : Candidate → ℕ × Latency
as_pair c = (c.distance, latency_of c.execution)

closer_cases :
    (best c : Candidate)
    → (closer best c ≡ c) × (c.distance ≤ best.distance)
      ⊎ (closer best c ≡ best) × (best.distance ≤ c.distance)
unfolding closer
closer_cases best c = elim (Bool-cases (nearer c best)) [
  | inl is_nearer ↦ inl (rw (is_nearer, closer) refl, ground arith)
  | inr not_nearer ↦ inr (rw (not_nearer, closer) refl, ground arith)
]

pub nearest_from-le :
    (cs : List Candidate) (best : Candidate) → (nearest_from best cs).distance ≤ best.distance
unfolding nearest_from
nearest_from-le [] best = omega arith
nearest_from-le (c ∷ cs) best = elim (closer_cases best c) [
  | inl (e, le) ↦ rw (e, nearest_from) (omega (arith, nearest_from-le cs c))
  | inr (e, le) ↦ rw (e, nearest_from) (nearest_from-le cs best)
]

pub nearest_from-All :
    (cs : List Candidate) (best : Candidate) (d : ℕ)
    → d ≡ (nearest_from best cs).distance
    → All (λ (q : ℕ × Latency). d ≤ q.0) (map as_pair cs)
unfolding nearest_from
nearest_from-All [] best d e = tt
nearest_from-All (c ∷ cs) best d e =
    let rest = nearest_from-All cs (closer best c) d e in
    elim (closer_cases best c) [
      | inl (e', le) ↦
          (omega (arith, nearest_from-le cs (closer best c), ap (λ x. x.distance) e'), rest)
      | inr (e', le) ↦
          (omega (arith, nearest_from-le cs (closer best c), ap (λ x. x.distance) e'), rest)
    ]

pub nearest_from-mem :
    (cs : List Candidate) (best : Candidate)
    → Memᴰ (as_pair (nearest_from best cs)) (as_pair best ∷ map as_pair cs)
unfolding nearest_from
nearest_from-mem [] best = Memᴰ.head refl
nearest_from-mem (c ∷ cs) best = elim (closer_cases best c) [
  | inl (e, le) ↦ rw (e, nearest_from) (Memᴰ.tail (nearest_from-mem cs c))
  | inr (e, le) ↦ rw (e, nearest_from) (skip (nearest_from-mem cs best))
]
  where
    skip : {x a b : ℕ × Latency} {xs : List (ℕ × Latency)} → Memᴰ x (a ∷ xs) → Memᴰ x (a ∷ b ∷ xs)
    skip (Memᴰ.head e) = Memᴰ.head e
    skip (Memᴰ.tail m) = Memᴰ.tail (Memᴰ.tail m)

abbrev pub is_positive : ExecutionKey → Bool
is_positive (execution_key m b h w) = ltb 0 h && ltb 0 w

-- The benchmark measures images of a positive height and width.
abbrev pub AllPositive : Dict ExecutionKey ExecutionRuntimeProfile → Type 0
AllPositive executions = All (λ e. is_positive e.0 ≡ true) executions

measured_cases :
    (x : ExecutionRuntimeProfile)
    → (successful x ≡ false) × (measured x ≡ none)
      ⊎ (l : ℕ) × (successful x ≡ true) × (measured x ≡ some l) × (latency_of x ≡ fin l)
unfolding measured
measured_cases x = elim (Bool-cases (successful x)) [
  | inr failed ↦ inl (failed, rw failed refl)
  | inl works ↦ elim (Option-cases x.latency_seconds) [
    | inl missing ↦ let no : false ≡ true = ground arith in cc
    | inr (l, found) ↦ inr (l, works, rw works found, rw found refl)
  ]
]

module _ (k : ExecutionKey) (x : ExecutionRuntimeProfile)
    (es : Dict ExecutionKey ExecutionRuntimeProfile) where
  scheduling-unmeasured :
      measured x ≡ none → scheduling_latencies ((k, x) ∷ es) ≡ scheduling_latencies es
  unfolding scheduling_latencies
  scheduling-unmeasured nothing = rw (nothing, scheduling_latencies) refl

  scheduling-measured :
      (l : ℕ)
      → measured x ≡ some l
      → scheduling_latencies ((k, x) ∷ es) ≡ (to_key k, fin l) ∷ scheduling_latencies es
  unfolding scheduling_latencies
  scheduling-measured l found = rw (found, scheduling_latencies) refl

-- The candidates of the scheduling core are those of the profile.
pub candidates-scheduling_latencies :
    (mode : String) (batch height width : ℕ) (es : Dict ExecutionKey ExecutionRuntimeProfile)
    → AllPositive es
    → candidates mode batch height width (scheduling_latencies es)
      ≡ map as_pair (execution_candidates mode batch height width es)
unfolding candidates scheduling_latencies execution_candidates
candidates-scheduling_latencies mode batch height width [] p = refl
candidates-scheduling_latencies mode batch height width ((execution_key m b h w, x) ∷ es)
      (positive, p) =
    let rest = candidates-scheduling_latencies mode batch height width es p in
    elim (measured_cases x) [
      | inl (failed, nothing) ↦
          let off : (m == mode && (nat_beq b batch && successful x)) ≡ false = ground arith in
          rw (scheduling-unmeasured (execution_key m b h w) x es nothing) (rw off rest)
      | inr (l, works, found, value) ↦
          rw (scheduling-measured (execution_key m b h w) x es l found)
            (elim (Bool-cases (m == mode && nat_beq b batch)) [
              | inl fits ↦
                  let on : (m == mode && (nat_beq b batch && successful x)) ≡ true = ground arith in
                  let on' : (m == mode && (nat_beq b batch && (ltb 0 h && ltb 0 w))) ≡ true =
                    ground arith in
                  rw (on, on') (rw (value, rest) refl)
              | inr other ↦
                  let off : (m == mode && (nat_beq b batch && successful x)) ≡ false =
                    ground arith in
                  let off' : (m == mode && (nat_beq b batch && (ltb 0 h && ltb 0 w))) ≡ false =
                    ground arith in
                  rw (off, off') rest
            ])
    ]

key_eq-execution_key_eq :
    (m' : String) (b' h' w' : ℕ) (m : String) (b h w : ℕ)
    → (execution_key m' b' h' w' == execution_key m b h w)
      ≡ (shape_key m' b' h' w' == shape_key m b h w)
unfolding key_eq execution_key_eq
key_eq-execution_key_eq m' b' h' w' m b h w = refl

pub lookup-scheduling_latencies :
    (m : String) (b h w : ℕ) (es : Dict ExecutionKey ExecutionRuntimeProfile)
    (x : ExecutionRuntimeProfile) (l : ℕ)
    → lookup (execution_key m b h w) es ≡ some x
    → measured x ≡ some l
    → lookup (shape_key m b h w) (scheduling_latencies es) ≡ some (fin l)
unfolding lookup
lookup-scheduling_latencies m b h w [] x l found value = cc
lookup-scheduling_latencies m b h w ((execution_key m' b' h' w', y) ∷ es) x l found value =
    elim (Bool-cases (execution_key m' b' h' w' == execution_key m b h w)) [
      | inl same ↦
          let same_value : y ≡ x = some-injective (rw same at found) in
          let same_key = sym (key_eq-execution_key_eq m' b' h' w' m b h w) ∙ same in
          let value' : measured y ≡ some l = rw same_value value in
          rw (scheduling-measured (execution_key m' b' h' w') y es l value') (rw same_key refl)
      | inr other ↦
          let rest = lookup-scheduling_latencies m b h w es x l (rw other at found) value in
          let other_key = sym (key_eq-execution_key_eq m' b' h' w' m b h w) ∙ other in
          elim (measured_cases y) [
            | inl (failed, nothing) ↦
                rw (scheduling-unmeasured (execution_key m' b' h' w') y es nothing) rest
            | inr (l', works, known, value') ↦
                rw (scheduling-measured (execution_key m' b' h' w') y es l' known)
                  (rw other_key rest)
          ]
    ]

pub lookup-scheduling_latencies_missing :
    (m : String) (b h w : ℕ) (es : Dict ExecutionKey ExecutionRuntimeProfile)
    → lookup (execution_key m b h w) es ≡ none
    → lookup (shape_key m b h w) (scheduling_latencies es) ≡ none
unfolding lookup scheduling_latencies
lookup-scheduling_latencies_missing m b h w [] missing = refl
lookup-scheduling_latencies_missing m b h w ((execution_key m' b' h' w', y) ∷ es) missing =
    elim (Bool-cases (execution_key m' b' h' w' == execution_key m b h w)) [
      | inl same ↦ let no = rw same at missing in cc
      | inr other ↦
          let rest = lookup-scheduling_latencies_missing m b h w es (rw other at missing) in
          let other_key = sym (key_eq-execution_key_eq m' b' h' w' m b h w) ∙ other in
          elim (measured_cases y) [
            | inl (failed, nothing) ↦
                rw (scheduling-unmeasured (execution_key m' b' h' w') y es nothing) rest
            | inr (l', works, known, value') ↦
                rw (scheduling-measured (execution_key m' b' h' w') y es l' known)
                  (rw other_key rest)
          ]
    ]
