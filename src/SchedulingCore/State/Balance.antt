-- ===== src/SchedulingCore/State/Balance.antt =====
-- The queue estimates of the core (scheduling_core.py) against its reservations.
use diflow.Prelude.{
  ℕ, ◌≡◌, refl, sym, ◌∙◌, Bool, true, false, Option, none, some, [], ◌∷◌, arith, String,
  if◌then◌else◌, ◌==◌, string_eq, nat_eq, Dict, lookup, insert, erase, contains, is_some, IsDict,
  ok, lookup-insert, lookup-erase, insert-IsDict, erase-IsDict, Bool-cases, Option-cases, inl, inr,
  key_error, value_error, require, ok-injective, or_raise-eq-ok, or_raise, >>=-eq-ok, erase_absent,
}
use mathlib.Core.Path.{subst}
use diflow.Latency.{
  Latency, add, is_inf, add_comm, add_assoc, zero_add, add_zero, sub_or_zero-add, Latency-cases,
}
use diflow.SchedulingCore.Task.{TaskSpec}
use diflow.SchedulingCore.Cost.{CostBreakdown, reserved_latency}
use diflow.SchedulingCore.State.{
  Core, Reservation, reserved_on, release, complete, record_reservation, SelectionResult, settle,
  Best, reserve_best, best_worker, select_and_reserve, reserve_on_worker, cost,
}

pub reserved_on-insert :
    (rank : ℕ) (id : String) (r : Reservation) (m : Dict String Reservation)
    → lookup id m ≡ none
    → reserved_on rank (insert id r m) ≡ (
        if r.worker_rank == rank
        then add (reserved_on rank m) (reserved_latency r.cost)
        else reserved_on rank m)
unfolding lookup insert reserved_on
reserved_on-insert rank id r [] h =
    ground (arith, zero_add (reserved_latency r.cost), add_zero (reserved_latency r.cost))
reserved_on-insert rank id r ((j, q) ∷ m) h = ground (
  arith,
  reserved_on-insert rank id r m,
  add_assoc (reserved_latency q.cost) (reserved_on rank m) (reserved_latency r.cost),
)

reserved_on-erase :
    (rank : ℕ) (id : String) (r : Reservation) (m : Dict String Reservation)
    → IsDict m
    → lookup id m ≡ some r
    → reserved_on rank m ≡ (
        if r.worker_rank == rank
        then add (reserved_on rank (erase id m)) (reserved_latency r.cost)
        else reserved_on rank (erase id m))
unfolding lookup erase reserved_on
reserved_on-erase rank id r [] d h = cc
reserved_on-erase rank id r ((j, q) ∷ m) d h = ground (
  arith,
  string_eq.beq_iff j id,
  erase_absent id m,
  add_comm (reserved_latency r.cost) (reserved_on rank m),
  reserved_on-erase rank id r m d.1,
  add_assoc (reserved_latency q.cost) (reserved_on rank (erase id m)) (reserved_latency r.cost),
)

-- What is left in a worker's queue once a reservation on it is taken back.
pub settle_lem :
    (rest : Dict String Reservation) (r : Reservation)
    → settle rest r (add (reserved_on r.worker_rank rest) (reserved_latency r.cost))
      ≡ reserved_on r.worker_rank rest
unfolding settle
settle_lem rest r = elim (Latency-cases (reserved_latency r.cost)) [
  | inl infinite ↦ rw infinite
  | inr (n, finite) ↦ rw finite (sub_or_zero-add (reserved_on r.worker_rank rest) n)
]

-- Queues against reservations: a queue is what is reserved on its worker, and every reservation
-- stands on a worker that has a queue.
pub record Balanced (queues : Dict ℕ Latency) (reservations : Dict String Reservation)
    : Type 0 where
  pub unique : IsDict reservations
  pub queue_sum :
      (rank : ℕ) (q : Latency) → lookup rank queues ≡ some q → q ≡ reserved_on rank reservations
  pub on_known :
      (id : String) (r : Reservation)
      → lookup id reservations ≡ some r
      → contains r.worker_rank queues ≡ true

abbrev pub IsBalanced : Core → Type 0
IsBalanced s = Balanced s.queue_latencies s.reservations

module _ {queues : Dict ℕ Latency} {reservations : Dict String Reservation}
    (b : Balanced queues reservations) where
  Balanced-insert :
      (id : String) (r : Reservation) (q : Latency)
      → lookup id reservations ≡ none
      → lookup r.worker_rank queues ≡ some q
      → Balanced
          (insert r.worker_rank (add q (reserved_latency r.cost)) queues)
          (insert id r reservations)
  Balanced-insert id r q fresh at_rank = record {
    unique = insert-IsDict id r reservations b.unique;
    queue_sum = λ rank q' h. ground (
      arith,
      lookup-insert r.worker_rank rank (add q (reserved_latency r.cost)) queues,
      reserved_on-insert rank id r reservations fresh,
      b.queue_sum rank q,
      b.queue_sum rank q',
    );
    on_known = λ id' r' h. ground (
      arith,
      lookup-insert r.worker_rank r'.worker_rank (add q (reserved_latency r.cost)) queues,
      lookup-insert id id' r reservations,
      b.on_known id' r',
    );
  }

  Balanced-erase :
      (id : String) (r : Reservation) (q : Latency)
      → lookup id reservations ≡ some r
      → lookup r.worker_rank queues ≡ some q
      → Balanced
          (insert r.worker_rank (settle (erase id reservations) r q) queues)
          (erase id reservations)
  Balanced-erase id r q present at_rank = record {
    unique = erase-IsDict id reservations b.unique;
    queue_sum = λ rank q' h. ground (
      arith,
      lookup-insert r.worker_rank rank (settle (erase id reservations) r q) queues,
      reserved_on-erase rank id r reservations b.unique present,
      settle_lem (erase id reservations) r,
      b.queue_sum rank q,
      b.queue_sum rank q',
    );
    on_known = λ id' r' h. ground (
      arith,
      lookup-insert r.worker_rank r'.worker_rank (settle (erase id reservations) r q) queues,
      lookup-erase id id' reservations,
      b.on_known id' r',
    );
  }

record_reservation-IsBalanced :
    (s : Core) (id : String) (rank : ℕ) (c : CostBreakdown) (p : Core × SelectionResult)
    → IsBalanced s
    → lookup id s.reservations ≡ none
    → record_reservation s id rank c ≡ ok p
    → IsBalanced p.0
unfolding record_reservation
record_reservation-IsBalanced s id rank c p b fresh e =
    let (q, known, e') = >>=-eq-ok (or_raise key_error (lookup rank s.queue_latencies)) _ e in
    subst (λ (x : Core × SelectionResult). IsBalanced x.0) (ok-injective e')
      (Balanced-insert b id (record { worker_rank = rank; cost = c }) q fresh
        (or_raise-eq-ok key_error _ known))

reserve_best-IsBalanced :
    (s : Core) (id : String) (best : Best) (p : Core × Option SelectionResult)
    → IsBalanced s
    → lookup id s.reservations ≡ none
    → reserve_best s id best ≡ ok p
    → IsBalanced p.0
unfolding reserve_best
reserve_best-IsBalanced s id none p b fresh e =
    subst (λ (x : Core × Option SelectionResult). IsBalanced x.0) (ok-injective e) b
reserve_best-IsBalanced s id (some (rank, c)) p b fresh e = elim (Bool-cases (is_inf c.total)) [
  | inl infinite ↦
      subst (λ (x : Core × Option SelectionResult). IsBalanced x.0)
        (ok-injective (rw infinite at e)) b
  | inr finite ↦
      let (q, recorded, e') = >>=-eq-ok (record_reservation s id rank c) _ (rw finite at e) in
      subst (λ (x : Core × Option SelectionResult). IsBalanced x.0) (ok-injective e')
        (record_reservation-IsBalanced s id rank c q b fresh recorded)
]

pub select_and_reserve-IsBalanced :
    (s : Core) (task : TaskSpec) (p : Core × Option SelectionResult)
    → IsBalanced s
    → select_and_reserve s task ≡ ok p
    → IsBalanced p.0
unfolding select_and_reserve
select_and_reserve-IsBalanced s task p b e =
    elim (Option-cases (lookup task.task_id s.reservations)) [
      | inl fresh ↦
          let (best, _, e') =
            >>=-eq-ok (best_worker s task s.cluster.worker_ranks none) _
              (rw (fresh, select_and_reserve) at e) in
          reserve_best-IsBalanced s task.task_id best p b fresh e'
      | inr (r, present) ↦
          subst (λ (x : Core × Option SelectionResult). IsBalanced x.0)
            (ok-injective (rw (present, select_and_reserve) at e)) b
    ]

pub reserve_on_worker-IsBalanced :
    (s : Core) (task : TaskSpec) (rank : ℕ) (p : Core × SelectionResult)
    → IsBalanced s
    → reserve_on_worker s task rank ≡ ok p
    → IsBalanced p.0
unfolding reserve_on_worker
reserve_on_worker-IsBalanced s task rank p b e =
    let (_, _, e₁) =
      >>=-eq-ok (require (contains rank s.cluster.worker_host_ids) value_error) _ e in
    elim (Option-cases (lookup task.task_id s.reservations)) [
      | inl fresh ↦
          let (c, _, e₂) = >>=-eq-ok (cost s task rank) _ (rw fresh at e₁) in
          record_reservation-IsBalanced s task.task_id rank c p b fresh e₂
      | inr (r, present) ↦ let same : s ≡ p.0 = ground arith in subst IsBalanced same b
    ]

pub contains→some {ℓ} : {A : Type ℓ} (o : Option A) → is_some o ≡ true → (a : A) × (o ≡ some a)
contains→some none h = cc
contains→some (some a) h = (a, refl)

-- A completion never raises in a balanced core: it reports whether the task was reserved, takes
-- exactly that reservation away, and leaves the core balanced.
pub complete_total :
    (s : Core) (id : String)
    → IsBalanced s
    → (p : Core × Bool) × (complete s id ≡ ok p)
      × (p.1 ≡ contains id s.reservations)
      × (p.0.reservations ≡ erase id s.reservations)
      × IsBalanced p.0
unfolding complete release
complete_total s id b = elim (Option-cases (lookup id s.reservations)) [
  | inl absent ↦
      ((s, false), rw (absent, complete), rw absent, sym (erase_absent id s.reservations absent), b)
  | inr (r, present) ↦
      let (q, known) =
        contains→some (lookup r.worker_rank s.queue_latencies) (b.on_known id r present) in
      (
        (
          record s {
            reservations = erase id s.reservations;
            queue_latencies =
                insert r.worker_rank (settle (erase id s.reservations) r q) s.queue_latencies;
          },
          true,
        ),
        rw (present, complete) (rw known),
        rw present,
        refl,
        Balanced-erase b id r q present known,
      )
]

pub complete-IsBalanced :
    (s : Core) (id : String) (p : Core × Bool)
    → IsBalanced s
    → complete s id ≡ ok p
    → IsBalanced p.0
complete-IsBalanced s id p b e =
    let (p', e', _, _, b') = complete_total s id b in
    let same : p' ≡ p = ok-injective (sym e' ∙ e) in
    subst (λ (x : Core × Bool). IsBalanced x.0) same b'
