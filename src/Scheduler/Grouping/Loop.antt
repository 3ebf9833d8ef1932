-- ===== src/Scheduler/Grouping/Loop.antt =====
-- What a task group is (`select_tasks_for_grouping` of the three schedulers).
use native.Mathlib.Nat.{add-zero}
use mathlib.Core.Path.{subst}
use mathlib.Core.List.{Perm, perm_middle}
use mathlib.Core.List.Perm
use diflow.Prelude.{
  ℕ, suc, ◌+◌, ◌≤◌, ◌≡◌, refl, sym, ap, ◌∙◌, ◌⊎◌, inl, inr, Bool, true, false, List, [], ◌∷◌, ◌++◌,
  arith, length, Outcome, ok, >>=-eq-ok, ok-injective, All, Bool-cases,
}
use diflow.Scheduler.Task.{Task}
use diflow.Scheduler.Grouping.{Limit, at_most, unlimited, below, gather, group_with}

-- A group of `size` tasks fits a limit, or is a single task.
abbrev pub Fits : ℕ → Limit → Type 0
Fits size (at_most n) = size ≤ n
Fits size unlimited = Unit

-- What the loop makes of `ready`, with `size` tasks in the group already: the taken and the left
-- tasks are the ready ones, each once; only compatible tasks are taken; the limit is kept; and if
-- there was room for one more, no compatible task was left.
record IsGathered (can : Task → Outcome Bool) (limit : Limit) (size : ℕ)
    (ready group rest : List Task) : Type 0 where
  perm : Perm (group ++ rest) ready
  compatible : All (λ t. can t ≡ ok true) group
  fits : Fits size limit → Fits (size + length group) limit
  full : below (size + length group) limit ≡ true → All (λ t. can t ≡ ok false) rest

Fits-suc : (limit : Limit) (size : ℕ) → below size limit ≡ true → Fits (suc size) limit
Fits-suc (at_most n) size h = ground arith
Fits-suc unlimited size h = tt

Fits-one : (limit : Limit) → below 1 limit ≡ true → Fits 1 limit
Fits-one (at_most n) h = ground arith
Fits-one unlimited h = tt

Fits-eq : (limit : Limit) {m n : ℕ} → m ≡ n → Fits m limit → Fits n limit
Fits-eq limit e h = subst (λ k. Fits k limit) e h

below-eq : (limit : Limit) {m n : ℕ} → m ≡ n → below m limit ≡ true → below n limit ≡ true
below-eq limit e h = subst (λ k. below k limit ≡ true) e h

module _ (can : Task → Outcome Bool) (limit : Limit) where
  gather_cases :
      (size : ℕ) (t : Task) (ready : List Task) (p : List Task × List Task)
      → gather can limit size (t ∷ ready) ≡ ok p
      → (below size limit ≡ false) × (p ≡ ([], t ∷ ready))
        ⊎ ((q : List Task × List Task) × (below size limit ≡ true)
            × (can t ≡ ok true)
            × (gather can limit (suc size) ready ≡ ok q)
            × (p ≡ (t ∷ q.0, q.1)))
        ⊎ ((q : List Task × List Task) × (below size limit ≡ true)
            × (can t ≡ ok false)
            × (gather can limit size ready ≡ ok q)
            × (p ≡ (q.0, t ∷ q.1)))
  unfolding gather
  gather_cases size t ready p e = elim (Bool-cases (below size limit)) [
    | inr full ↦ inl (full, sym (ok-injective (rw (full, gather) at e)))
    | inl room ↦
        let (b, tested, e₁) = >>=-eq-ok (can t) _ (rw (room, gather) at e) in
        elim (Bool-cases b) [
          | inl yes_b ↦
              let (q, looped, e₂) =
                >>=-eq-ok (gather can limit (suc size) ready) _ (rw yes_b at e₁) in
              inr (inl (q, room, tested ∙ ap ok yes_b, looped, sym (ok-injective e₂)))
          | inr no_b ↦
              let (q, looped, e₂) = >>=-eq-ok (gather can limit size ready) _ (rw no_b at e₁) in
              inr (inr (q, room, tested ∙ ap ok no_b, looped, sym (ok-injective e₂)))
        ]
  ]

  gather-IsGathered :
      (ready : List Task) (size : ℕ) (p : List Task × List Task)
      → gather can limit size ready ≡ ok p
      → IsGathered can limit size ready p.0 p.1
  unfolding gather
  gather-IsGathered [] size p e =
      subst (λ (x : List Task × List Task). IsGathered can limit size [] x.0 x.1) (ok-injective e)
        (record {
          perm = Perm.refl [];
          compatible = tt;
          fits = Fits-eq limit (omega arith);
          full = λ _. tt;
        })
  gather-IsGathered (t ∷ ready) size p e = elim (gather_cases size t ready p e) [
    | inl (full, shape) ↦ rw shape (record {
      perm = Perm.refl (t ∷ ready);
      compatible = tt;
      fits = Fits-eq limit (omega arith);
      full = λ room. let room' = below-eq limit (add-zero size) room in cc;
    })
    | inr (inl (q, room, fit, looped, shape)) ↦
        let g = gather-IsGathered ready (suc size) q looped in
        rw shape (record {
          perm = Perm.cons t g.perm;
          compatible = (fit, g.compatible);
          fits = λ h. Fits-eq limit (omega arith) (g.fits (Fits-suc limit size room));
          full = λ h. g.full (below-eq limit (omega arith) h);
        })
    | inr (inr (q, room, unfit, looped, shape)) ↦
        let g = gather-IsGathered ready size q looped in
        rw shape (record {
          perm = Perm.trans (perm_middle q.0 q.1) (Perm.cons t g.perm);
          compatible = g.compatible;
          fits = g.fits;
          full = λ h. (unfit, g.full h);
        })
  ]

-- A group and what it leaves of the ready tasks: it starts with the first ready task and holds only
-- tasks that may be grouped with it; no task is lost or doubled; it keeps the batch size `limit`,
-- unless it is the first task alone; and where it stays below the limit, no task that could join
-- was left.
pub record IsGroup (can : Task → Task → Outcome Bool) (limit_of : Task → List Task → Outcome Limit)
    (ready group rest : List Task) : Type 0 where
  pub limit : Limit
  pub first : Task
  pub others : List Task
  pub joined : List Task
  pub limited : limit_of first others ≡ ok limit
  pub ready_first : ready ≡ first ∷ others
  pub group_first : group ≡ first ∷ joined
  pub perm : Perm (group ++ rest) ready
  pub compatible : All (λ t. can first t ≡ ok true) joined
  pub fits : Fits (length group) limit ⊎ (joined ≡ [])
  pub full : below (length group) limit ≡ true → All (λ t. can first t ≡ ok false) rest

gather_stop :
    (can : Task → Outcome Bool) (limit : Limit) (size : ℕ) (ready : List Task)
    (p : List Task × List Task)
    → gather can limit size ready ≡ ok p
    → below size limit ≡ false
    → p.0 ≡ []
unfolding gather
gather_stop can limit size [] p e h = ap (λ (x : List Task × List Task). x.0) (sym (ok-injective e))
gather_stop can limit size (t ∷ ready) p e h =
    ap (λ (x : List Task × List Task). x.0) (sym (ok-injective (rw (h, gather) at e)))

pub group_with-IsGroup :
    (can : Task → Task → Outcome Bool) (limit_of : Task → List Task → Outcome Limit)
    (ready : List Task) (p : List Task × List Task)
    → group_with can limit_of ready ≡ ok p
    → IsGroup can limit_of ready p.0 p.1
unfolding group_with
group_with-IsGroup can limit_of [] p e = cc
group_with-IsGroup can limit_of (first ∷ others) p e =
    let (limit, limited, e₁) = >>=-eq-ok (limit_of first others) _ e in
    let (q, looped, e₂) = >>=-eq-ok (gather (can first) limit 1 others) _ e₁ in
    let g = gather-IsGathered (can first) limit others 1 q looped in
    subst (λ (x : List Task × List Task). IsGroup can limit_of (first ∷ others) x.0 x.1)
      (ok-injective e₂)
      (record {
        limit = limit;
        first = first;
        others = others;
        joined = q.0;
        limited = limited;
        ready_first = refl;
        group_first = refl;
        perm = Perm.cons first g.perm;
        compatible = g.compatible;
        fits = elim (Bool-cases (below 1 limit)) [
          | inl room ↦ inl (Fits-eq limit (omega arith) (g.fits (Fits-one limit room)))
          | inr none_left ↦ inr (gather_stop (can first) limit 1 others q looped none_left)
        ];
        full = λ h. g.full (below-eq limit (omega arith) h);
      })
