-- ===== src/Coordinator/Ready/Ordered.antt =====
-- The order of the ready tasks (coordinator.py).
use diflow.Prelude.{
  ℕ, ◌≤◌, ◌<◌, ◌⊎◌, ◌≡◌, refl, sym, ap, ◌∙◌, arith, Bool, true, false, ◌&&◌, List, [], ◌∷◌, ◌++◌,
  nat_beq, every, is_some, select, All, All-map, ok, Bool-cases, inl, inr,
}
use diflow.Scheduler.Task.{Task}
use diflow.Coordinator.Ready.{
  Queues, Ranks, task_key, key_of, before, insert_task, sort_tasks, prepare_ready_tasks,
}

-- No task stands behind one that it goes before.
abbrev IsSorted : Ranks → List Task → Type 0
IsSorted ranks [] = Unit
IsSorted ranks (t ∷ ts) =
    All (λ u. before (key_of ranks u) (key_of ranks t) ≡ false) ts × IsSorted ranks ts

abbrev pub has_key : Ranks → ℕ × ℕ → Task → Bool
has_key ranks (arrival, depth) t =
    nat_beq (key_of ranks t).0 arrival && nat_beq (key_of ranks t).1 depth

before-asym : (p q : ℕ × ℕ) → before p q ≡ true → before q p ≡ false
before-asym (a, d) (a', d') h = ground arith

not_before_trans : (p q r : ℕ × ℕ) → before p q ≡ false → before q r ≡ false → before p r ≡ false
not_before_trans (a, d) (b, e) (c, f) h k = ground arith

same_key-not_before :
    (p q : ℕ × ℕ) (a d : ℕ)
    → (nat_beq p.0 a && nat_beq p.1 d) ≡ true
    → (nat_beq q.0 a && nat_beq q.1 d) ≡ true
    → before p q ≡ false
same_key-not_before (a, d) (b, e) x y h k = ground arith

insert_task-All :
    (P : Task → Type 0) (ranks : Ranks) (t : Task) (us : List Task)
    → P t
    → All P us
    → All P (insert_task ranks t us)
unfolding insert_task
insert_task-All P ranks t [] h k = (h, tt)
insert_task-All P ranks t (u ∷ us) h k =
    elim (Bool-cases (before (key_of ranks u) (key_of ranks t))) [
      | inl first ↦ rw first (k.0, insert_task-All P ranks t us h k.1)
      | inr later ↦ rw later (h, k)
    ]

insert_task-IsSorted :
    (ranks : Ranks) (t : Task) (us : List Task)
    → IsSorted ranks us
    → IsSorted ranks (insert_task ranks t us)
unfolding insert_task
insert_task-IsSorted ranks t [] o = (tt, tt)
insert_task-IsSorted ranks t (u ∷ us) o =
    elim (Bool-cases (before (key_of ranks u) (key_of ranks t))) [
      | inl first ↦ rw first (
        insert_task-All (λ v. before (key_of ranks v) (key_of ranks u) ≡ false) ranks t us
            (before-asym (key_of ranks u) (key_of ranks t) first) o.0,
        insert_task-IsSorted ranks t us o.1,
      )
      | inr later ↦ rw later (
        (
          later,
          All-map us
              (λ v h. not_before_trans (key_of ranks v) (key_of ranks u) (key_of ranks t) h later)
              o.0,
        ),
        o,
      )
    ]

sort_tasks-IsSorted : (ranks : Ranks) (ts : List Task) → IsSorted ranks (sort_tasks ranks ts)
unfolding sort_tasks
sort_tasks-IsSorted ranks [] = tt
sort_tasks-IsSorted ranks (t ∷ ts) =
    insert_task-IsSorted ranks t (sort_tasks ranks ts) (sort_tasks-IsSorted ranks ts)

select-insert_task :
    (ranks : Ranks) (key : ℕ × ℕ) (t : Task) (us : List Task)
    → select (has_key ranks key) (insert_task ranks t us) ≡ select (has_key ranks key) (t ∷ us)
unfolding insert_task
select-insert_task ranks key t [] = refl
select-insert_task ranks key t (u ∷ us) =
    let rest = select-insert_task ranks key t us in
    elim (Bool-cases (before (key_of ranks u) (key_of ranks t))) [
      | inr later ↦ rw later refl
      | inl first ↦ rw first (elim (Bool-cases (has_key ranks key u)) [
        | inr other ↦ rw other rest
        | inl mine ↦ elim (Bool-cases (has_key ranks key t)) [
          | inr other ↦ let rest' = rw other at rest in rw (mine, other, rest') refl
          | inl same ↦
              let no : true ≡ false =
                sym first
                ∙ same_key-not_before (key_of ranks u) (key_of ranks t) key.0 key.1 mine same in
              cc
        ]
      ])
    ]

select-sort_tasks :
    (ranks : Ranks) (key : ℕ × ℕ) (ts : List Task)
    → select (has_key ranks key) (sort_tasks ranks ts) ≡ select (has_key ranks key) ts
unfolding sort_tasks
select-sort_tasks ranks key [] = refl
select-sort_tasks ranks key (t ∷ ts) =
    select-insert_task ranks key t (sort_tasks ranks ts) ∙ rw (select-sort_tasks ranks key ts) refl

-- The first arrived later, or at the same time and its node is not deeper.
abbrev pub IsAfter : ℕ × ℕ → ℕ × ℕ → Type 0
IsAfter (arrival, depth) (arrival', depth') =
    (arrival' < arrival) ⊎ (arrival ≡ arrival') × (depth ≤ depth')

abbrev pub InOrder : Ranks → List Task → Type 0
InOrder ranks [] = Unit
InOrder ranks (t ∷ ts) = All (λ u. IsAfter (key_of ranks u) (key_of ranks t)) ts × InOrder ranks ts

not_before-IsAfter : (p q : ℕ × ℕ) → before p q ≡ false → IsAfter p q
not_before-IsAfter (a, d) (a', d') h = ground arith

IsSorted-InOrder : (ranks : Ranks) (ts : List Task) → IsSorted ranks ts → InOrder ranks ts
IsSorted-InOrder ranks [] o = tt
IsSorted-InOrder ranks (t ∷ ts) o = (
  All-map ts (λ u h. not_before-IsAfter (key_of ranks u) (key_of ranks t) h) o.0,
  IsSorted-InOrder ranks ts o.1,
)

-- Every request has an arrival and every task a depth.
abbrev pub all_known : Ranks → List Task → Bool
all_known ranks ts = every (λ u. is_some (task_key ranks u)) ts

append-nil : (ts : List Task) → ts ++ [] ≡ ts
append-nil [] = refl
append-nil (t ∷ ts) = ap (λ us. t ∷ us) (append-nil ts)

-- The ready tasks are kept in order: with every arrival and every depth known, the queue is emptied,
-- no task stands behind one that arrived later or, in requests that arrived at once, is less deep,
-- and the tasks of equal rank are those that were there, in the order in which they came. Without
-- new tasks the list must have been in order.
pub prepare_ready_tasks-InOrder :
    (ranks : Ranks) (q : Queues)
    → InOrder ranks q.ready_tasks
    → all_known ranks (q.ready_tasks ++ q.task_queue) ≡ true
    → (q' : Queues) × (prepare_ready_tasks ranks q ≡ ok q')
      × (q'.task_queue ≡ [])
      × InOrder ranks q'.ready_tasks
      × ((key : ℕ × ℕ)
          → select (has_key ranks key) q'.ready_tasks
            ≡ select (has_key ranks key) (q.ready_tasks ++ q.task_queue))
unfolding prepare_ready_tasks
prepare_ready_tasks-InOrder ranks q o known = go q.ready_tasks q.task_queue o known
  where
    go :
        (ready queue : List Task)
        → InOrder ranks ready
        → all_known ranks (ready ++ queue) ≡ true
        → (q' : Queues) × (prepare_ready_tasks ranks
              (record { ready_tasks = ready; task_queue = queue })
            ≡ ok q')
          × (q'.task_queue ≡ [])
          × InOrder ranks q'.ready_tasks
          × ((key : ℕ × ℕ)
              → select (has_key ranks key) q'.ready_tasks
                ≡ select (has_key ranks key) (ready ++ queue))
    go ready [] o known = (
      record { ready_tasks = ready; task_queue = [] },
      refl,
      refl,
      o,
      λ key. ap (select (has_key ranks key)) (sym (append-nil ready)),
    )
    go ready (t ∷ ts) o known = (
      record { ready_tasks = sort_tasks ranks (ready ++ t ∷ ts); task_queue = [] },
      rw known refl,
      refl,
      IsSorted-InOrder ranks (sort_tasks ranks (ready ++ t ∷ ts))
          (sort_tasks-IsSorted ranks (ready ++ t ∷ ts)),
      λ key. select-sort_tasks ranks key (ready ++ t ∷ ts),
    )
