-- ===== src/SchedulingCore/Profile/Nearest.antt =====
-- What `lookup_execution_latency` finds in a model's profile (scheduling_core.py).
use mathlib.Core.List.{Memᴰ}
use diflow.Prelude.{
  ℕ, ◌≤◌, ◌<◌, ◌≡◌, refl, ap, ◌⊎◌, inl, inr, true, ◌&&◌, none, some, List, [], ◌∷◌, arith, String,
  ltb, nat_beq, ◌==◌, string_eq, Dict, lookup, IsDict, ok, All, All-map, Bool-cases, Option-cases,
}
use diflow.Latency.{Latency, inf}
use diflow.SchedulingCore.Profile.{
  ModelProfile, ProfileKey, batch_key, shape_key, key_eq, shape_distance, candidates, lesser,
  min_from, nearest_latency, exact_latency, lookup_execution_latency, next_power_of_2,
}

-- The table has `l` for the mode and batch size at the positive shape `h` by `w`.
abbrev pub IsMeasured : String → ℕ → Dict ProfileKey Latency → ℕ → ℕ → Latency → Type 0
IsMeasured mode batch table h w l =
    (lookup (shape_key mode batch h w) table ≡ some l) × (0 < h) × (0 < w)

-- A measured latency and its distance from the wanted shape.
abbrev IsCandidate : String → ℕ → ℕ → ℕ → Dict ProfileKey Latency → ℕ × Latency → Type 0
IsCandidate mode batch height width table (d, l) =
    (h : ℕ) × (w : ℕ) × (d ≡ shape_distance height width h w) × IsMeasured mode batch table h w l

module _ (mode : String) (batch height width : ℕ) where
  IsCandidate-step :
      (k : ProfileKey) (l : Latency) (table : Dict ProfileKey Latency) (c : ℕ × Latency)
      → lookup k table ≡ none
      → IsCandidate mode batch height width table c
      → IsCandidate mode batch height width ((k, l) ∷ table) c
  unfolding lookup
  IsCandidate-step k l table c absent (h, w, e, (found, hp, wp)) =
      (h, w, e, (ground (arith, key_eq.beq_iff k (shape_key mode batch h w)), hp, wp))

  candidates-All :
      (table : Dict ProfileKey Latency)
      → IsDict table
      → All (IsCandidate mode batch height width table) (candidates mode batch height width table)
  unfolding candidates lookup
  candidates-All [] d = tt
  candidates-All ((batch_key m b, l) ∷ table) d =
      All-map (candidates mode batch height width table)
        (λ c. IsCandidate-step (batch_key m b) l table c d.0) (candidates-All table d.1)
  candidates-All ((shape_key m b h w, l) ∷ table) d =
      let rest =
        All-map (candidates mode batch height width table)
          (λ c. IsCandidate-step (shape_key m b h w) l table c d.0) (candidates-All table d.1) in
      elim (Bool-cases (m == mode && (nat_beq b batch && (ltb 0 h && ltb 0 w)))) [
        | inl fits ↦ rw fits (
          (
            h,
            w,
            refl,
            (
              ground (
                arith,
                string_eq.beq_iff m mode,
                key_eq.beq_iff (shape_key m b h w) (shape_key mode batch h w),
              ),
              ground arith,
              ground arith,
            ),
          ),
          rest,
        )
        | inr other ↦ rw other rest
      ]

  candidates_complete :
      (table : Dict ProfileKey Latency) (h w : ℕ) (l : Latency)
      → IsMeasured mode batch table h w l
      → Memᴰ (shape_distance height width h w, l) (candidates mode batch height width table)
  unfolding candidates lookup
  candidates_complete [] h w l (found, hp, wp) = cc
  candidates_complete ((batch_key m b, l') ∷ table) h w l (found, hp, wp) =
      candidates_complete table h w l
        (ground (arith, key_eq.beq_iff (batch_key m b) (shape_key mode batch h w)), hp, wp)
  candidates_complete ((shape_key m b h' w', l') ∷ table) h w l (found, hp, wp) =
      let test = m == mode && (nat_beq b batch && (ltb 0 h' && ltb 0 w')) in
      elim (Bool-cases (key_eq.beq (shape_key m b h' w') (shape_key mode batch h w))) [
        | inl this ↦
            let same : shape_key m b h' w' ≡ shape_key mode batch h w =
              (key_eq.beq_iff _ _).0 this in
            let value : l' ≡ l = ground arith in
            let hs : h' ≡ h = cc in
            let ws : w' ≡ w = cc in
            let ms : m ≡ mode = cc in
            let bs : b ≡ batch = cc in
            let passes : test ≡ true = ground (arith, string_eq.beq_iff m mode) in
            rw passes (Memᴰ.head (rw (hs, ws, value)))
        | inr other ↦
            let m' = candidates_complete table h w l (ground arith, hp, wp) in
            elim (Bool-cases test) [
              | inl passes ↦ rw passes (Memᴰ.tail m')
              | inr fails ↦ rw fails m'
            ]
      ]

lesser_cases :
    (best c : ℕ × Latency)
    → (lesser best c ≡ c) × (c.0 ≤ best.0) ⊎ (lesser best c ≡ best) × (best.0 ≤ c.0)
unfolding lesser
lesser_cases (d, l) (d', l') = ground arith

-- `min` keeps a property of all its arguments, and no argument is nearer than its result.
min_from_All {κ} :
    (P : ℕ × Latency → Type κ) (cs : List (ℕ × Latency)) (best : ℕ × Latency)
    → P best
    → All P cs
    → P (min_from best cs)
unfolding min_from
min_from_All P [] best h k = h
min_from_All P (c ∷ cs) best h k = elim (lesser_cases best c) [
  | inl (e, _) ↦ rw (e, min_from) (min_from_All P cs c k.0 k.1)
  | inr (e, _) ↦ rw (e, min_from) (min_from_All P cs best h k.1)
]

min_from-le : (cs : List (ℕ × Latency)) (best : ℕ × Latency) → (min_from best cs).0 ≤ best.0
unfolding min_from
min_from-le [] best = omega arith
min_from-le (c ∷ cs) best = elim (lesser_cases best c) [
  | inl (e, le) ↦ rw (e, min_from) (omega (arith, min_from-le cs c))
  | inr (e, _) ↦ rw (e, min_from) (min_from-le cs best)
]

min_from-le_mem :
    (cs : List (ℕ × Latency)) (best c : ℕ × Latency) → Memᴰ c cs → (min_from best cs).0 ≤ c.0
unfolding min_from
min_from-le_mem [] best c m = elim m [ ]
min_from-le_mem (x ∷ cs) best c (Memᴰ.head p) = elim (lesser_cases best x) [
  | inl (e, _) ↦ rw (e, min_from, p) (min_from-le cs x)
  | inr (e, le) ↦ rw (e, min_from, p) (omega (arith, min_from-le cs best))
]
min_from-le_mem (x ∷ cs) best c (Memᴰ.tail m) = elim (lesser_cases best x) [
  | inl (e, _) ↦ rw (e, min_from) (min_from-le_mem cs x c m)
  | inr (e, _) ↦ rw (e, min_from) (min_from-le_mem cs best c m)
]

nearest_latency_nil : nearest_latency [] ≡ inf
unfolding nearest_latency
nearest_latency_nil = refl

nearest_latency_cons :
    (c : ℕ × Latency) (cs : List (ℕ × Latency)) → nearest_latency (c ∷ cs) ≡ (min_from c cs).1
unfolding nearest_latency
nearest_latency_cons c cs = refl

nearest_le :
    (c : ℕ × Latency) (cs : List (ℕ × Latency)) (x : ℕ × Latency)
    → Memᴰ x (c ∷ cs)
    → (min_from c cs).0 ≤ x.0
nearest_le c cs x (Memᴰ.head e) = rw e (min_from-le cs c)
nearest_le c cs x (Memᴰ.tail m) = min_from-le_mem cs c x m

-- `l` was measured at a positive shape, and no measured positive shape is nearer to the wanted one.
pub record IsNearest (mode : String) (batch height width : ℕ) (table : Dict ProfileKey Latency)
    (l : Latency) : Type 0 where
  pub h : ℕ
  pub w : ℕ
  pub measured : IsMeasured mode batch table h w l
  pub least :
      (h' w' : ℕ) (l' : Latency)
      → IsMeasured mode batch table h' w' l'
      → shape_distance height width h w ≤ shape_distance height width h' w'

nearest_latency_cases :
    (mode : String) (batch height width : ℕ) (table : Dict ProfileKey Latency)
    → IsDict table
    → (nearest_latency (candidates mode batch height width table) ≡ inf)
        × ((h w : ℕ) (l : Latency) → ¬ IsMeasured mode batch table h w l)
      ⊎ IsNearest mode batch height width table
          (nearest_latency (candidates mode batch height width table))
nearest_latency_cases mode batch height width table d =
    go (candidates mode batch height width table) (candidates-All mode batch height width table d)
      (candidates_complete mode batch height width table)
  where
    go :
        (cs : List (ℕ × Latency))
        → All (IsCandidate mode batch height width table) cs
        → ((h w : ℕ) (l : Latency)
            → IsMeasured mode batch table h w l
            → Memᴰ (shape_distance height width h w, l) cs)
        → (nearest_latency cs ≡ inf)
            × ((h w : ℕ) (l : Latency) → ¬ IsMeasured mode batch table h w l)
          ⊎ IsNearest mode batch height width table (nearest_latency cs)
    go [] a m = inl (nearest_latency_nil, λ h w l meas. elim (m h w l meas) [ ])
    go (c ∷ cs) a m =
        let (h, w, e, meas) =
          min_from_All (IsCandidate mode batch height width table) cs c a.0 a.1 in
        inr (
          rw (nearest_latency_cons c cs) (record {
            h = h;
            w = w;
            measured = meas;
            least = λ h' w' l' meas'.
                rw (← e)
                  (nearest_le c cs (shape_distance height width h' w', l') (m h' w' l' meas'));
          }))

exact-IsNearest :
    (profile : ModelProfile) (mode : String) (batch height width : ℕ) (l : Latency)
    → exact_latency profile mode batch height width ≡ some l
    → IsNearest mode batch height width profile.execution_latencies l
exact-IsNearest profile mode batch height width l e =
    elim (Bool-cases (ltb 0 height && ltb 0 width)) [
      | inl positive ↦ record {
        h = height;
        w = width;
        measured = (rw positive at e, ground arith, ground arith);
        least = λ h' w' l' _. omega arith;
      }
      | inr degenerate ↦ let e' = rw degenerate at e in cc
    ]

-- A batch is looked up at the next power of two. The latency found was measured for the mode at a
-- positive height and width to which no other measured shape is nearer; it is infinite if no shape
-- was measured.
pub lookup_execution_latency-IsNearest :
    (profile : ModelProfile) (mode : String) (batch_size height width b : ℕ)
    → IsDict profile.execution_latencies
    → next_power_of_2 batch_size ≡ ok b
    → (lookup_execution_latency profile mode batch_size height width ≡ ok inf)
        × ((h w : ℕ) (l : Latency) → ¬ IsMeasured mode b profile.execution_latencies h w l)
      ⊎ (l : Latency) × (lookup_execution_latency profile mode batch_size height width ≡ ok l)
        × IsNearest mode b height width profile.execution_latencies l
unfolding lookup_execution_latency
lookup_execution_latency-IsNearest profile mode batch_size height width b d e =
    elim (Option-cases (exact_latency profile mode b height width)) [
      | inl missing ↦
          elim (nearest_latency_cases mode b height width profile.execution_latencies d) [
            | inl (infinite, nothing) ↦
                inl (rw (e, lookup_execution_latency) (rw missing (ap ok infinite)), nothing)
            | inr nearest ↦ inr (_, rw (e, lookup_execution_latency) (rw missing), nearest)
          ]
      | inr (l, found) ↦ inr (
        l,
        rw (e, lookup_execution_latency) (rw found),
        exact-IsNearest profile mode b height width l found,
      )
    ]
