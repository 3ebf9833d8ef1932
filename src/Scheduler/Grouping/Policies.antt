-- ===== src/Scheduler/Grouping/Policies.antt =====
-- The groups that each scheduling policy forms (dynamic_scheduler.py, exclusive_scheduler.py,
-- random_scheduler.py).
use mathlib.Core.Path.{subst}
use diflow.Prelude.{
  ℕ, ◌≤◌, ◌≡◌, refl, sym, ◌⊎◌, inl, inr, true, Option, none, some, List, [], arith, length,
  string_eq, Outcome, ok, >>=-eq-ok, ok-injective, All, All-map,
}
use diflow.Scheduler.Task.{
  Task, dynamic_can_group, exclusive_can_group, random_can_group, task_resolution,
}
use diflow.Scheduler.Grouping.{
  Limit, at_most, unlimited, BatchConfigs, configured_limit, exclusive_select_tasks,
  random_select_tasks, dynamic_limit, dynamic_select_tasks, cap_limit, required_workers,
  task_counts,
}
use diflow.Scheduler.Grouping.Loop.{IsGroup, group_with-IsGroup, Fits}

-- The two tasks run one model in one mode.
abbrev pub SameModel : Task → Task → Type 0
SameModel t u =
    (t.workflow_node.op.id ≡ u.workflow_node.op.id) × (t.workflow_node.mode ≡ u.workflow_node.mode)

exclusive_can_group_sound :
    (t u : Task) → exclusive_can_group t u ≡ ok true → SameModel t u × (t.request_id ≡ u.request_id)
unfolding exclusive_can_group
exclusive_can_group_sound t u h = ground (
  arith,
  string_eq.beq_iff t.workflow_node.op.id u.workflow_node.op.id,
  string_eq.beq_iff t.workflow_node.mode u.workflow_node.mode,
  string_eq.beq_iff t.request_id u.request_id,
)

dynamic_can_group_sound :
    (t u : Task)
    → dynamic_can_group t u ≡ ok true
    → SameModel t u × (task_resolution t ≡ task_resolution u)
unfolding dynamic_can_group
dynamic_can_group_sound t u h = ground (
  arith,
  string_eq.beq_iff t.workflow_node.op.id u.workflow_node.op.id,
  string_eq.beq_iff t.workflow_node.mode u.workflow_node.mode,
)

random_can_group_sound : (t u : Task) → random_can_group t u ≡ ok true → SameModel t u
unfolding random_can_group
random_can_group_sound t u h = ground (
  arith,
  string_eq.beq_iff t.workflow_node.op.id u.workflow_node.op.id,
  string_eq.beq_iff t.workflow_node.mode u.workflow_node.mode,
)

abbrev pub configured : BatchConfigs → Task → List Task → Outcome Limit
configured configs first ready =
    configured_limit configs first.workflow_node.op.id "throughput_mode"

-- A group of the exclusive policy is a group of the ready tasks within the configured batch size,
-- and all its tasks belong to one request and run one model in one mode.
pub exclusive_select_tasks-IsGroup :
    (configs : BatchConfigs) (ready group rest : List Task)
    → exclusive_select_tasks configs ready ≡ ok (group, rest)
    → (g : IsGroup exclusive_can_group (configured configs) ready group rest) × All
        (λ t. SameModel g.first t × (g.first.request_id ≡ t.request_id))
        g.joined
unfolding exclusive_select_tasks
exclusive_select_tasks-IsGroup configs ready group rest e =
    let g = group_with-IsGroup exclusive_can_group (configured configs) ready (group, rest) e in
    (g, All-map g.joined (λ t. exclusive_can_group_sound g.first t) g.compatible)

-- A group of the random policy is a group of the ready tasks within the configured batch size, and
-- all its tasks run one model in one mode.
pub random_select_tasks-IsGroup :
    (configs : BatchConfigs) (ready group rest : List Task)
    → random_select_tasks configs ready ≡ ok (group, rest)
    → (g : IsGroup random_can_group (configured configs) ready group rest) × All
        (λ t. SameModel g.first t)
        g.joined
unfolding random_select_tasks
random_select_tasks-IsGroup configs ready group rest e =
    let g = group_with-IsGroup random_can_group (configured configs) ready (group, rest) e in
    (g, All-map g.joined (λ t. random_can_group_sound g.first t) g.compatible)

-- At most as many tasks as the largest measured batch, where one was measured.
abbrev pub IsCapped : Option ℕ → ℕ → Type 0
IsCapped none n = Unit
IsCapped (some m) n = n ≤ m

module _ (available : ℕ) (profiled_limit : Task → Option ℕ) (configs : BatchConfigs) where
  dynamic_limit_capped :
      (first : Task) (others : List Task) (limit : Limit) (m n : ℕ)
      → dynamic_limit available profiled_limit configs first others ≡ ok limit
      → profiled_limit first ≡ some m
      → Fits n limit
      → n ≤ m
  unfolding dynamic_limit
  dynamic_limit_capped first others limit m n e measured f =
      let (needed, _, e₁) = >>=-eq-ok (required_workers configs (task_counts others []) 0) _ e in
      let (l, _, e₂) = >>=-eq-ok (configured_limit configs first.workflow_node.op.id _) _ e₁ in
      cap l (subst (λ k. Fits n k) (sym (ok-injective (rw measured at e₂))) f)
    where
      cap : (l : Limit) → Fits n (cap_limit l (some m)) → n ≤ m
      cap (at_most k) h = omega arith
      cap unlimited h = h

  capped :
      (first : Task) (others : List Task) (limit : Limit) (n : ℕ)
      → dynamic_limit available profiled_limit configs first others ≡ ok limit
      → Fits n limit
      → (o : Option ℕ) → profiled_limit first ≡ o
      → IsCapped o n
  capped first others limit n e f none measured = tt
  capped first others limit n e f (some m) measured =
      dynamic_limit_capped first others limit m n e measured f

  -- A group of the dynamic policy is a group of the ready tasks within its batch size; all its tasks
  -- run one model in one mode at one resolution; and where the profile measured batches of at most
  -- `m` tasks, the group has at most `m`, or is the first task alone.
  pub dynamic_select_tasks-IsGroup :
      (ready group rest : List Task)
      → dynamic_select_tasks available profiled_limit configs ready ≡ ok (group, rest)
      → (g : IsGroup dynamic_can_group
          (dynamic_limit available profiled_limit configs)
          ready
          group
          rest)
        × All (λ t. SameModel g.first t × (task_resolution g.first ≡ task_resolution t)) g.joined
        × (IsCapped (profiled_limit g.first) (length group) ⊎ (g.joined ≡ []))
  unfolding dynamic_select_tasks
  dynamic_select_tasks-IsGroup ready group rest e =
      let limit_of = dynamic_limit available profiled_limit configs in
      let g = group_with-IsGroup dynamic_can_group limit_of ready (group, rest) e in
      (
        g,
        All-map g.joined (λ t. dynamic_can_group_sound g.first t) g.compatible,
        elim g.fits [
          | inl f ↦ inl (
              capped g.first g.others g.limit (length group) g.limited f (profiled_limit g.first)
                refl)
          | inr alone ↦ inr alone
        ],
      )
