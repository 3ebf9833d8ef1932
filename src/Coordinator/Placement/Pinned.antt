-- ===== src/Coordinator/Placement/Pinned.antt =====
-- The denoise scheduler of a request stays on one worker (coordinator.py).
use mathlib.Core.Path.{subst}
use diflow.Prelude.{
  ℕ, ◌≡◌, sym, ap, ◌∙◌, arith, Bool, true, false, Option, none, some, List, ◌∷◌, String, string_eq,
  nat_beq, Dict, lookup, insert, lookup-insert, lookup-insert_self, ok, require-eq-ok,
  assertion_error, >>=-eq-ok, ok-injective, Bool-cases, Option-cases, inl, inr,
}
use diflow.Scheduler.Task.{Task}
use diflow.Coordinator.Placement.{
  Policy, Placement, choose_worker, record_worker, select_worker_for_group,
}

abbrev pub is_scheduler : Task → Bool
is_scheduler t = t.workflow_node.op.is_scheduler

abbrev pub pinned : {S : Type 0} → Placement S → String → Option ℕ
pinned s request = lookup request s.denoise_scheduler_worker

some-injective : {a b : ℕ} → some a ≡ some b → a ≡ b
some-injective h = cc

record_worker-plain :
    (d d' : Dict String ℕ) (task : Task) (rank : ℕ)
    → is_scheduler task ≡ false
    → record_worker d task rank ≡ ok d'
    → d' ≡ d
unfolding record_worker
record_worker-plain d d' task rank plain e = ok-injective (sym (rw plain at e))

record_worker-new :
    (d d' : Dict String ℕ) (task : Task) (rank : ℕ)
    → is_scheduler task ≡ true
    → lookup task.request_id d ≡ none
    → record_worker d task rank ≡ ok d'
    → d' ≡ insert task.request_id rank d
unfolding record_worker
record_worker-new d d' task rank op new e = ok-injective (sym (rw (op, new, record_worker) at e))

record_worker-old :
    (d d' : Dict String ℕ) (task : Task) (rank old : ℕ)
    → is_scheduler task ≡ true
    → lookup task.request_id d ≡ some old
    → record_worker d task rank ≡ ok d'
    → (old ≡ rank) × (d' ≡ d)
unfolding record_worker
record_worker-old d d' task rank old op known e =
    let (same, e') =
      require-eq-ok (nat_beq old rank) assertion_error (rw (op, known, record_worker) at e) in
    (ground arith, ok-injective (sym e'))

-- What stands recorded stays; a scheduler operation leaves its worker recorded.
record_worker_keeps :
    (d d' : Dict String ℕ) (task : Task) (rank : ℕ) (request : String) (w : ℕ)
    → record_worker d task rank ≡ ok d'
    → lookup request d ≡ some w
    → lookup request d' ≡ some w
record_worker_keeps d d' task rank request w e known = elim (Bool-cases (is_scheduler task)) [
  | inr plain ↦ ap (lookup request) (record_worker-plain d d' task rank plain e) ∙ known
  | inl op ↦ elim (Option-cases (lookup task.request_id d)) [
    | inr (old, found) ↦
        ap (lookup request) (record_worker-old d d' task rank old op found e).1 ∙ known
    | inl new ↦
        ap (lookup request) (record_worker-new d d' task rank op new e)
        ∙ ground (
          arith,
          lookup-insert task.request_id request rank d,
          string_eq.beq_iff task.request_id request,
        )
  ]
]

record_worker_records :
    (d d' : Dict String ℕ) (task : Task) (rank : ℕ)
    → record_worker d task rank ≡ ok d'
    → is_scheduler task ≡ true
    → lookup task.request_id d' ≡ some rank
record_worker_records d d' task rank e op = elim (Option-cases (lookup task.request_id d)) [
  | inr (old, found) ↦
      let (same, kept) = record_worker-old d d' task rank old op found e in
      ap (lookup task.request_id) kept ∙ found ∙ ap some same
  | inl new ↦
      ap (lookup task.request_id) (record_worker-new d d' task rank op new e)
      ∙ lookup-insert_self task.request_id rank d
]

module _ {S : Type 0} (policy : Policy S) where
  -- A call that returned: the table was written by `record_worker`.
  call_records :
      (s : Placement S) (task : Task) (group : List Task) (p : Placement S × ℕ)
      → select_worker_for_group policy s (task ∷ group) ≡ ok p
      → record_worker s.denoise_scheduler_worker task p.1 ≡ ok p.0.denoise_scheduler_worker
  unfolding select_worker_for_group
  call_records s task group p e =
      let (chosen, c, e1) = >>=-eq-ok (choose_worker policy s task (task ∷ group)) _ e in
      let (u, updated, e2) =
        >>=-eq-ok (policy.update_worker_status_after_scheduling chosen.0 chosen.1 (task ∷ group)) _
          e1 in
      let (d, recorded, e3) =
        >>=-eq-ok (record_worker s.denoise_scheduler_worker task chosen.1) _ e2 in
      let result = ok-injective e3 in
      subst
        (λ (q : Placement S × ℕ).
          record_worker s.denoise_scheduler_worker task q.1 ≡ ok q.0.denoise_scheduler_worker)
        result recorded

  -- Any number of calls that return, one after the other; between them the scheduler may change.
  pub data Calls (s : Placement S) : Placement S → Type 0 where
    start : Calls s s
    call :
        {t u : Placement S} (task : Task) (group : List Task) (rank : ℕ)
        → Calls s t
        → select_worker_for_group policy t (task ∷ group) ≡ ok (u, rank)
        → Calls s u
    other :
        {t : Placement S} (scheduler : S) → Calls s t → Calls s (record t { scheduler = scheduler })

  Calls-pinned :
      (s t : Placement S) (request : String) (w : ℕ)
      → Calls s t
      → pinned s request ≡ some w
      → pinned t request ≡ some w
  Calls-pinned s _ request w start h = h
  Calls-pinned s _ request w (call {t} {u} task group rank before e) h =
      record_worker_keeps t.denoise_scheduler_worker u.denoise_scheduler_worker task rank request w
        (call_records t task group (u, rank) e) (Calls-pinned s t request w before h)
  Calls-pinned s _ request w (other {t} scheduler before) h = Calls-pinned s t request w before h

  -- Whatever is placed in between, and whatever the scheduler does: the scheduler operations of one
  -- request are all placed on the same worker.
  pub select_worker_for_group-same :
      (s s' t t' : Placement S) (first later : Task) (group group' : List Task) (w w' : ℕ)
      → select_worker_for_group policy s (first ∷ group) ≡ ok (s', w)
      → Calls s' t
      → select_worker_for_group policy t (later ∷ group') ≡ ok (t', w')
      → is_scheduler first ≡ true
      → is_scheduler later ≡ true
      → first.request_id ≡ later.request_id
      → w ≡ w'
  select_worker_for_group-same s s' t t' first later group group' w w' e between e' op op' same =
      let recorded =
        record_worker_records s.denoise_scheduler_worker s'.denoise_scheduler_worker first w
          (call_records s first group (s', w) e) op in
      let kept = Calls-pinned s' t first.request_id w between recorded in
      let kept' =
        record_worker_keeps t.denoise_scheduler_worker t'.denoise_scheduler_worker later w'
          first.request_id w (call_records t later group' (t', w') e') kept in
      let recorded' =
        record_worker_records t.denoise_scheduler_worker t'.denoise_scheduler_worker later w'
          (call_records t later group' (t', w') e') op' in
      some-injective (sym kept' ∙ ap (pinned t') same ∙ recorded')
