-- ===== src/Scheduler/Exclusive/Pairing.antt =====
-- Requests and workers are paired one to one (exclusive_scheduler.py).
use mathlib.Core.List.{Memᴰ}
use diflow.Prelude.{
  ℕ, ◌≡◌, refl, sym, ap, ◌∙◌, ◌⊎◌, inl, inr, Bool, true, false, Option, none, some, List, [], ◌∷◌,
  map, arith, String, string_eq, nat_eq, Dict, lookup, insert, contains, is_some, ok, raise,
  or_raise, key_error, unbound_local, >>=-eq-ok, ok-injective, or_raise-eq-ok, Option-cases,
  lookup-insert, lookup-erase, lookup-erase_self, All, All-map, All-of_mem, beq_refl,
  lookup-insert_self, ◌≢◌,
}
use diflow.Scheduler.Exclusive.{
  Exclusive, idle, init, first_free, check_worker_availability, select_worker, cleanup_request,
}

-- The two maps say the same, and each worker has a status.
pub record IsPaired (s : Exclusive) : Type 0 where
  pub assigned :
      (r : String) (w : ℕ)
      → lookup r s.request_worker_map ≡ some w
      → lookup w s.worker_request ≡ some (some r)
  pub occupied :
      (r : String) (w : ℕ)
      → lookup w s.worker_request ≡ some (some r)
      → lookup r s.request_worker_map ≡ some w
  pub known : All (λ w. contains w s.worker_request ≡ true) s.workers

first_free_cons :
    (v : ℕ) (ws : List ℕ) (status : Dict ℕ (Option String)) (o : Option ℕ)
    → first_free (v ∷ ws) status ≡ ok o
    → (lookup v status ≡ some none) × (o ≡ some v) ⊎ (first_free ws status ≡ ok o)
unfolding first_free
first_free_cons v ws status o e =
    let (request, found, e') = >>=-eq-ok (or_raise key_error (lookup v status)) _ e in
    let known = or_raise-eq-ok key_error (lookup v status) found in
    elim (Option-cases request) [
      | inl free ↦ inl (known ∙ ap some free, sym (ok-injective (rw free at e')))
      | inr (r, taken) ↦ inr (rw taken at e')
    ]

first_free_found :
    (ws : List ℕ) (status : Dict ℕ (Option String)) (w : ℕ)
    → first_free ws status ≡ ok (some w)
    → lookup w status ≡ some none
first_free_found [] status w e = unfold first_free in cc
first_free_found (v ∷ ws) status w e = elim (first_free_cons v ws status (some w) e) [
  | inl (free, named) ↦ ground arith
  | inr later ↦ first_free_found ws status w later
]

known_insert :
    (ws : List ℕ) (w : ℕ) (o : Option String) (status : Dict ℕ (Option String))
    → All (λ v. contains v status ≡ true) ws
    → All (λ v. contains v (insert w o status) ≡ true) ws
known_insert ws w o status = All-map ws (λ v h. ground (arith, lookup-insert w v o status))

-- A request that had no worker is paired with a free one.
assign-IsPaired :
    (s : Exclusive) (request_id : String) (w : ℕ)
    → IsPaired s
    → lookup request_id s.request_worker_map ≡ none
    → lookup w s.worker_request ≡ some none
    → IsPaired (record s {
      request_worker_map = insert request_id w s.request_worker_map;
      worker_request = insert w (some request_id) s.worker_request;
    })
assign-IsPaired s request_id w b absent free = record {
  assigned = λ r v h. ground (
    arith,
    string_eq.beq_iff request_id r,
    lookup-insert request_id r w s.request_worker_map,
    lookup-insert w v (some request_id) s.worker_request,
    b.assigned r v,
    b.assigned r w,
  );
  occupied = λ r v h. ground (
    arith,
    string_eq.beq_iff request_id r,
    lookup-insert request_id r w s.request_worker_map,
    lookup-insert w v (some request_id) s.worker_request,
    b.occupied r v,
    b.assigned request_id v,
  );
  known = known_insert s.workers w (some request_id) s.worker_request b.known;
}

select_worker_cases :
    (s : Exclusive) (request_id : String) (p : Exclusive × ℕ)
    → select_worker s request_id ≡ ok p
    → ((w : ℕ) × (lookup request_id s.request_worker_map ≡ some w) × (p ≡ (s, w)))
      ⊎ ((w : ℕ) × (lookup request_id s.request_worker_map ≡ none)
          × (lookup w s.worker_request ≡ some none)
          × (p ≡ (
            record s {
              request_worker_map = insert request_id w s.request_worker_map;
              worker_request = insert w (some request_id) s.worker_request;
            },
            w,
          )))
unfolding select_worker
select_worker_cases s request_id p e =
    elim (Option-cases (lookup request_id s.request_worker_map)) [
      | inr (w, present) ↦ inl (w, present, sym (ok-injective (rw (present, select_worker) at e)))
      | inl absent ↦
          let (free, looped, e₁) =
            >>=-eq-ok (first_free s.workers s.worker_request) _ (rw (absent, select_worker) at e) in
          let (w, named, e₂) = >>=-eq-ok (or_raise unbound_local free) _ e₁ in
          let found = or_raise-eq-ok unbound_local free named in
          inr (
            w,
            absent,
            first_free_found s.workers s.worker_request w (looped ∙ ap ok found),
            sym (ok-injective e₂),
          )
    ]

-- A selection pairs the request with the worker it returns, and keeps every other pair.
pub select_worker-IsPaired :
    (s : Exclusive) (request_id : String) (p : Exclusive × ℕ)
    → IsPaired s
    → select_worker s request_id ≡ ok p
    → IsPaired p.0
      × (lookup request_id p.0.request_worker_map ≡ some p.1)
      × ((r : String)
          → r ≢ request_id
          → lookup r p.0.request_worker_map ≡ lookup r s.request_worker_map)
select_worker-IsPaired s request_id p b e = elim (select_worker_cases s request_id p e) [
  | inl (w, present, shape) ↦ rw shape (b, present, λ r _. refl)
  | inr (w, absent, free, shape) ↦ rw shape (
    assign-IsPaired s request_id w b absent free,
    lookup-insert_self request_id w s.request_worker_map,
    λ r other.
        ground (
          arith,
          string_eq.beq_iff request_id r,
          lookup-insert request_id r w s.request_worker_map,
        ),
  )
]

cleanup_request-IsPaired :
    (s : Exclusive) (request_id : String) → IsPaired s → IsPaired (cleanup_request s request_id)
unfolding cleanup_request
cleanup_request-IsPaired s request_id b =
    elim (Option-cases (lookup request_id s.request_worker_map)) [
      | inl absent ↦ rw (absent, cleanup_request) b
      | inr (w, present) ↦
          rw (present, cleanup_request)
            (record {
              assigned = λ r v h. ground (
                arith,
                string_eq.beq_iff request_id r,
                lookup-erase request_id r s.request_worker_map,
                lookup-insert w v none s.worker_request,
                b.assigned r v,
                b.assigned request_id w present,
              );
              occupied = λ r v h. ground (
                arith,
                string_eq.beq_iff request_id r,
                lookup-erase request_id r s.request_worker_map,
                lookup-insert w v none s.worker_request,
                b.occupied r v,
                b.assigned request_id w present,
                b.assigned request_id v,
              );
              known = known_insert s.workers w none s.worker_request b.known;
            })
    ]

-- The worker of a cleaned-up request is free, and the request has none.
cleanup_request_frees :
    (s : Exclusive) (request_id : String) (w : ℕ)
    → lookup request_id s.request_worker_map ≡ some w
    → (lookup w (cleanup_request s request_id).worker_request ≡ some none)
      × (lookup request_id (cleanup_request s request_id).request_worker_map ≡ none)
unfolding cleanup_request
cleanup_request_frees s request_id w present =
    rw (present, cleanup_request)
      (
        lookup-insert_self w none s.worker_request,
        lookup-erase_self request_id s.request_worker_map,
      )

check_cases :
    (s : Exclusive) (request_id : String) (b : Bool)
    → check_worker_availability s request_id ≡ ok b
    → ((w : ℕ) × (lookup request_id s.request_worker_map ≡ some w) × (b ≡ true))
      ⊎ ((o : Option ℕ) × (lookup request_id s.request_worker_map ≡ none)
          × (first_free s.workers s.worker_request ≡ ok o)
          × (b ≡ is_some o))
unfolding check_worker_availability
check_cases s request_id b e = elim (Option-cases (lookup request_id s.request_worker_map)) [
  | inr (w, present) ↦
      inl (w, present, sym (ok-injective (rw (present, check_worker_availability) at e)))
  | inl absent ↦
      let (o, looped, e₁) =
        >>=-eq-ok (first_free s.workers s.worker_request) _
          (rw (absent, check_worker_availability) at e) in
      inr (o, absent, looped, sym (ok-injective e₁))
]

select_worker_free :
    (s : Exclusive) (request_id : String) (w : ℕ)
    → lookup request_id s.request_worker_map ≡ none
    → first_free s.workers s.worker_request ≡ ok (some w)
    → select_worker s request_id
      ≡ ok (
        record s {
          request_worker_map = insert request_id w s.request_worker_map;
          worker_request = insert w (some request_id) s.worker_request;
        },
        w,
      )
unfolding select_worker
select_worker_free s request_id w absent looped = rw (absent, select_worker) (rw looped)

-- A selection after a check: it returns a worker where the check said that one is available, and
-- where it said that none is, it ends in UnboundLocalError, before the assertion is reached.
pub select_worker-check :
    (s : Exclusive) (request_id : String) (b : Bool)
    → check_worker_availability s request_id ≡ ok b
    → (b ≡ true) × ((p : Exclusive × ℕ) × (select_worker s request_id ≡ ok p))
      ⊎ (b ≡ false) × (select_worker s request_id ≡ raise unbound_local)
unfolding select_worker
select_worker-check s request_id b e = elim (check_cases s request_id b e) [
  | inl (w, present, available) ↦ inl (available, ((s, w), rw (present, select_worker)))
  | inr (o, absent, looped, answer) ↦ elim (Option-cases o) [
    | inl nobody ↦
        inr (answer ∙ ap is_some nobody, rw (absent, select_worker) (rw looped (rw nobody)))
    | inr (w, free) ↦ inl (
      answer ∙ ap is_some free,
      (_, select_worker_free s request_id w absent (looped ∙ ap ok free)),
    )
  ]
]

-- The operations that change the pairing.
pub data Step (s : Exclusive) : Exclusive → Type 0 where
  select :
      {s' : Exclusive} (request_id : String) (w : ℕ)
      → select_worker s request_id ≡ ok (s', w)
      → Step s s'
  clean : {s' : Exclusive} (request_id : String) → s' ≡ cleanup_request s request_id → Step s s'

pub data Reach (s : Exclusive) : Exclusive → Type 0 where
  here : Reach s s
  next : {t u : Exclusive} → Reach s t → Step t u → Reach s u

Step-IsPaired : {s t : Exclusive} → Step s t → IsPaired s → IsPaired t
Step-IsPaired (select request_id w e) b = (select_worker-IsPaired _ request_id _ b e).0
Step-IsPaired (clean request_id e) b = rw e (cleanup_request-IsPaired _ request_id b)

lookup-idle : (w : ℕ) (ws : List ℕ) (r : String) → lookup w (map idle ws) ≡ some (some r) → ⊥
unfolding lookup
lookup-idle w [] r h = cc
lookup-idle w (v ∷ ws) r h = ground (arith, lookup-idle w ws r)

contains-idle : (w : ℕ) (ws : List ℕ) → Memᴰ w ws → contains w (map idle ws) ≡ true
unfolding lookup
contains-idle w [] m = elim m [ ]
contains-idle w (v ∷ ws) (Memᴰ.head e) = rw (e, beq_refl v)
contains-idle w (v ∷ ws) (Memᴰ.tail m) = ground (arith, contains-idle w ws m)

init-IsPaired : (workers : List ℕ) → IsPaired (init workers)
unfolding init
init-IsPaired workers = record {
  assigned = λ r w h. absurd (unfold lookup in cc);
  occupied = λ r w h. absurd (lookup-idle w workers r h);
  known = All-of_mem workers (λ w. contains-idle w workers);
}

Reach-IsPaired : (workers : List ℕ) {s : Exclusive} → Reach (init workers) s → IsPaired s
Reach-IsPaired workers here = init-IsPaired workers
Reach-IsPaired workers (next r st) = Step-IsPaired st (Reach-IsPaired workers r)

-- Whatever requests come and go, no worker ever serves two requests.
pub Reach-exclusive :
    (workers : List ℕ) (s : Exclusive) (a b : String) (w : ℕ)
    → Reach (init workers) s
    → lookup a s.request_worker_map ≡ some w
    → lookup b s.request_worker_map ≡ some w
    → a ≡ b
Reach-exclusive workers s a b w r ha hb =
    let p = Reach-IsPaired workers r in cc (p.assigned a w ha, p.assigned b w hb)
