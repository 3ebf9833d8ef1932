-- ===== src/SchedulingCore/State/Selection.antt =====
-- Which worker `select_and_reserve` picks (scheduling_core.py).
use diflow.Prelude.{
  ℕ, ◌≡◌, refl, sym, ◌∙◌, true, false, none, some, List, [], ◌∷◌, arith, ◌⊎◌, string_eq, nat_eq,
  lookup, ok, Bool-cases, inl, inr, key_error, or_raise, >>=-eq-ok, ok-injective, or_raise-eq-ok,
  All,
}
use mathlib.Core.List.{Memᴰ}
use diflow.Latency.{Latency, less, Le, Le-refl, Le-trans, Le_of_less, Le_of_not_less}
use diflow.SchedulingCore.Task.{TaskSpec}
use diflow.SchedulingCore.Cost.{CostBreakdown}
use diflow.SchedulingCore.State.{Core, Best, better, consider, best_worker, cost}

-- The worker's queue does not pass the threshold, so the loop asks for its cost.
abbrev pub IsEligible : Core → ℕ → Type 0
IsEligible s rank =
    (q : Latency) × (lookup rank s.queue_latencies ≡ some q)
    × (less s.cluster.worker_latency_threshold q ≡ false)

-- The best worker so far costs no more than `c`.
abbrev pub Bounds : Best → CostBreakdown → Type 0
Bounds none c = ⊥
Bounds (some (_, best_cost)) c = Le best_cost.total c.total

-- Where the best worker comes from.
abbrev Offers : Core → TaskSpec → ℕ → Best → Type 0
Offers s task rank best =
    (c : CostBreakdown) × (best ≡ some (rank, c)) × IsEligible s rank × (cost s task rank ≡ ok c)

module _ (s : Core) (task : TaskSpec) where
  consider_cases :
      (rank : ℕ) (best best' : Best)
      → consider s task rank best ≡ ok best'
      → (best' ≡ best)
          × ((q : Latency) × (lookup rank s.queue_latencies ≡ some q)
              × (less s.cluster.worker_latency_threshold q ≡ true))
        ⊎ (c : CostBreakdown) × IsEligible s rank
          × (cost s task rank ≡ ok c)
          × (best' ≡ better best rank c)
  unfolding consider
  consider_cases rank best best' e =
      let (q, known, e₁) = >>=-eq-ok (or_raise key_error (lookup rank s.queue_latencies)) _ e in
      let found = or_raise-eq-ok key_error _ known in
      elim (Bool-cases (less s.cluster.worker_latency_threshold q)) [
        | inl busy ↦ inl (sym (ok-injective (rw busy at e₁)), (q, found, busy))
        | inr free ↦
            let (c, priced, e₂) = >>=-eq-ok (cost s task rank) _ (rw free at e₁) in
            inr (c, (q, found, free), priced, sym (ok-injective e₂))
      ]

  Bounds-trans :
      (best best' : Best) (c : CostBreakdown)
      → Bounds best c
      → ((r : ℕ) (d : CostBreakdown) → best ≡ some (r, d) → Bounds best' d)
      → Bounds best' c
  Bounds-trans none best' c b k = absurd b
  Bounds-trans (some (r, d)) none c b k = absurd (k r d refl)
  Bounds-trans (some (r, d)) (some (r', d')) c b k =
      Le-trans d'.total d.total c.total (k r d refl) b

  Bounds-better : (best : Best) (rank : ℕ) (c : CostBreakdown) → Bounds (better best rank c) c
  Bounds-better none rank c = Le-refl c.total
  Bounds-better (some (r, d)) rank c = elim (Bool-cases (less c.total d.total)) [
    | inl lower ↦ rw lower (Le-refl c.total)
    | inr higher ↦ rw higher (Le_of_not_less c.total d.total higher)
  ]

  Bounds-better_old :
      (best : Best) (rank : ℕ) (c : CostBreakdown) (r : ℕ) (d : CostBreakdown)
      → best ≡ some (r, d)
      → Bounds (better best rank c) d
  Bounds-better_old none rank c r d e = cc
  Bounds-better_old (some (r', d')) rank c r d e =
      let same : d' ≡ d = cc in
      elim (Bool-cases (less c.total d'.total)) [
        | inl lower ↦ rw (lower, ← same) (Le_of_less c.total d'.total lower)
        | inr higher ↦ rw (higher, ← same) (Le-refl d'.total)
      ]

  better_cases :
      (best : Best) (rank : ℕ) (c : CostBreakdown)
      → (better best rank c ≡ best) ⊎ (better best rank c ≡ some (rank, c))
  better_cases none rank c = inr refl
  better_cases (some (r', d')) rank c = elim (Bool-cases (less c.total d'.total)) [
    | inl lower ↦ inr (rw lower)
    | inr higher ↦ inl (rw higher)
  ]

  -- What the loop over `ranks` makes of `best`.
  pub record IsChosen (ranks : List ℕ) (best best' : Best) : Type 0 where
    pub keeps : (r : ℕ) (d : CostBreakdown) → best ≡ some (r, d) → Bounds best' d
    pub bounds :
        All
          (λ rank.
            (c : CostBreakdown) → IsEligible s rank → cost s task rank ≡ ok c → Bounds best' c)
          ranks
    pub source :
        (r : ℕ) (d : CostBreakdown)
        → best' ≡ some (r, d)
        → (best ≡ some (r, d)) ⊎ Memᴰ r ranks × IsEligible s r × (cost s task r ≡ ok d)

  IsChosen-cons :
      (rank : ℕ) (ranks : List ℕ) (best best₁ best' : Best)
      → consider s task rank best ≡ ok best₁
      → IsChosen ranks best₁ best'
      → IsChosen (rank ∷ ranks) best best'
  IsChosen-cons rank ranks best best₁ best' e ch = elim (consider_cases rank best best₁ e) [
    | inl (same, (q, found, busy)) ↦ record {
      keeps = λ r d h. ch.keeps r d (same ∙ h);
      bounds = ((λ c (q', found', free) priced. ground arith), ch.bounds);
      source = λ r d h. elim (ch.source r d h) [
        | inl old ↦ inl (sym same ∙ old)
        | inr (m, el, priced) ↦ inr (Memᴰ.tail m, el, priced)
      ];
    }
    | inr (c, free, priced, step) ↦ record {
      keeps = λ r d h.
          Bounds-trans best₁ best' d (rw step (Bounds-better_old best rank c r d h)) ch.keeps;
      bounds = (
        (λ c' _ priced'.
            let same : c ≡ c' = ok-injective (sym priced ∙ priced') in
            rw (← same)
              (Bounds-trans best₁ best' c (rw step (Bounds-better best rank c)) ch.keeps)),
        ch.bounds,
      );
      source = λ r d h. elim (ch.source r d h) [
        | inl now ↦ elim (better_cases best rank c) [
          | inl old ↦ inl (sym old ∙ (sym step ∙ now))
          | inr new ↦
              let named : rank ≡ r = cc in
              let same : c ≡ d = cc in
              inr (Memᴰ.head (sym named), rw (← named) free, rw (← named, ← same) priced)
        ]
        | inr (m, el, priced') ↦ inr (Memᴰ.tail m, el, priced')
      ];
    }
  ]

  pub best_worker-IsChosen :
      (ranks : List ℕ) (best best' : Best)
      → best_worker s task ranks best ≡ ok best'
      → IsChosen ranks best best'
  unfolding best_worker
  best_worker-IsChosen [] best best' e =
      let same : best ≡ best' = ok-injective e in
      record {
        keeps = λ r d h. rw (sym same ∙ h) (Le-refl d.total);
        bounds = tt;
        source = λ r d h. inl (same ∙ h);
      }
  best_worker-IsChosen (rank ∷ ranks) best best' e =
      let (best₁, considered, e') = >>=-eq-ok (consider s task rank best) _ e in
      IsChosen-cons rank ranks best best₁ best' considered
        (best_worker-IsChosen ranks best₁ best' e')
