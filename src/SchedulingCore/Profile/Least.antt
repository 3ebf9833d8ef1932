-- ===== src/SchedulingCore/Profile/Least.antt =====
-- What `nearest_latency` chooses among equally near shapes (scheduling_core.py).
use mathlib.Core.List.{Memᴰ}
use diflow.Prelude.{ℕ, ◌≤◌, ◌≡◌, refl, List, [], ◌∷◌, arith, Bool-cases, inl, inr}
use diflow.Latency.{Latency, Le, Le-refl, Le-trans, Le_of_less, Le_of_not_less}
use diflow.SchedulingCore.Profile.{pair_less, lesser, min_from, nearest_latency}

-- Not farther, and not slower at the same distance.
abbrev pub PairLe : ℕ × Latency → ℕ × Latency → Type 0
PairLe p q = (p.0 ≤ q.0) × (p.0 ≡ q.0 → Le p.1 q.1)

PairLe-refl : (p : ℕ × Latency) → PairLe p p
PairLe-refl p = (omega arith, λ e. Le-refl p.1)

PairLe-trans : (p q r : ℕ × Latency) → PairLe p q → PairLe q r → PairLe p r
PairLe-trans p q r (h, k) (h', k') =
    (omega arith, λ e. Le-trans p.1 q.1 r.1 (k (omega arith)) (k' (omega arith)))

lesser-PairLe : (best c : ℕ × Latency) → PairLe (lesser best c) best × PairLe (lesser best c) c
unfolding lesser
lesser-PairLe (d, l) (d', l') = elim (Bool-cases (pair_less (d', l') (d, l))) [
  | inl less_c ↦
      rw (less_c, lesser)
        ((ground arith, λ e. Le_of_less l' l (ground arith)), PairLe-refl (d', l'))
  | inr not_c ↦
      rw (not_c, lesser)
        (PairLe-refl (d, l), (ground arith, λ e. Le_of_not_less l' l (ground arith)))
]

min_from-PairLe : (cs : List (ℕ × Latency)) (best : ℕ × Latency) → PairLe (min_from best cs) best
unfolding min_from
min_from-PairLe [] best = PairLe-refl best
min_from-PairLe (c ∷ cs) best =
    PairLe-trans (min_from (lesser best c) cs) (lesser best c) best
      (min_from-PairLe cs (lesser best c)) (lesser-PairLe best c).0

min_from-PairLe_mem :
    (cs : List (ℕ × Latency)) (best x : ℕ × Latency) → Memᴰ x cs → PairLe (min_from best cs) x
unfolding min_from
min_from-PairLe_mem [] best x m = elim m [ ]
min_from-PairLe_mem (c ∷ cs) best x (Memᴰ.head e) = rw e (
    PairLe-trans (min_from (lesser best c) cs) (lesser best c) c
      (min_from-PairLe cs (lesser best c)) (lesser-PairLe best c).1)
min_from-PairLe_mem (c ∷ cs) best x (Memᴰ.tail m) = min_from-PairLe_mem cs (lesser best c) x m

lesser-mem :
    (best c : ℕ × Latency) (cs : List (ℕ × Latency)) (x : ℕ × Latency)
    → Memᴰ x (lesser best c ∷ cs)
    → Memᴰ x (best ∷ c ∷ cs)
unfolding lesser
lesser-mem best c cs x (Memᴰ.tail m) = Memᴰ.tail (Memᴰ.tail m)
lesser-mem best c cs x (Memᴰ.head e) = elim (Bool-cases (pair_less c best)) [
  | inl less_c ↦ Memᴰ.tail (Memᴰ.head (rw (less_c, lesser) at e))
  | inr not_c ↦ Memᴰ.head (rw (not_c, lesser) at e)
]

min_from-mem : (cs : List (ℕ × Latency)) (best : ℕ × Latency) → Memᴰ (min_from best cs) (best ∷ cs)
unfolding min_from
min_from-mem [] best = Memᴰ.head refl
min_from-mem (c ∷ cs) best =
    lesser-mem best c cs (min_from best (c ∷ cs)) (min_from-mem cs (lesser best c))

pub nearest_latency-least :
    (cs : List (ℕ × Latency)) (x : ℕ × Latency)
    → Memᴰ x cs
    → (m : ℕ × Latency) × Memᴰ m cs × (nearest_latency cs ≡ m.1) × PairLe m x
unfolding nearest_latency
nearest_latency-least [] x mem = elim mem [ ]
nearest_latency-least (c ∷ cs) x (Memᴰ.head e) =
    (min_from c cs, min_from-mem cs c, refl, rw e (min_from-PairLe cs c))
nearest_latency-least (c ∷ cs) x (Memᴰ.tail mem) =
    (min_from c cs, min_from-mem cs c, refl, min_from-PairLe_mem cs c x mem)
