-- ===== src/Coordinator/Lazy/Notified.antt =====
-- What the notification of a tensor does for those who wait (coordinator.py).
use mathlib.Core.Path.{subst}
use diflow.Prelude.{
  ℕ, ◌≡◌, refl, sym, arith, true, false, ◌||◌, ◌&&◌, none, some, List, [], ◌∷◌, ◌++◌, map, String,
  string_eq, nat_eq, ◌==◌, beq_refl, nat_beq, some_of, Dict, lookup, erase, contains, lookup-erase,
  ok, Bool-cases, Option-cases, inl, inr,
}
use diflow.Scheduler.Task.{TensorInfo}
use diflow.Coordinator.Lazy.{
  arrived, Arrival, Lazy, copies_of, waiting_for, notifications, notify_lazy_input_available,
}
use diflow.Coordinator.Lazy.Awake.{told, is_served, is_stored, IsAwake, some_of-append}

abbrev arrival : String → ℕ → TensorInfo → String × ℕ → Arrival
arrival tensor rank info w = record {
  to_worker = w.1;
  tensor_id = tensor;
  worker_rank = rank;
  tensor_info = info;
}

-- The messages of a notification about a copy that is there, one for each waiting node.
notifications-stored :
    (tensor : String) (rank : ℕ) (tensors : Dict String (Dict ℕ TensorInfo))
    (ws : List (String × ℕ))
    → is_stored tensor rank tensors ≡ true
    → (info : TensorInfo) × (notifications tensor rank tensors ws
        ≡ ok (map (arrival tensor rank info) ws))
unfolding notifications copies_of lookup
notifications-stored tensor rank tensors ws h = elim (Option-cases (lookup tensor tensors)) [
  | inl missing ↦ let no : false ≡ true = rw (missing, copies_of) at h in cc
  | inr (copies, found) ↦ elim (Option-cases (lookup rank copies)) [
    | inl missing ↦ let no : false ≡ true = rw (found, missing, copies_of) at h in cc
    | inr (info, held) ↦ (info, go copies info found held ws)
  ]
]
  where
    go :
        (copies : Dict ℕ TensorInfo) (info : TensorInfo)
        → lookup tensor tensors ≡ some copies
        → lookup rank copies ≡ some info
        → (ws : List (String × ℕ))
        → notifications tensor rank tensors ws ≡ ok (map (arrival tensor rank info) ws)
    go copies info found held [] = refl
    go copies info found held ((node, worker) ∷ ws) =
        rw (found, held, go copies info found held ws) refl

told-map :
    (tensor : String) (rank r : ℕ) (info : TensorInfo) (ws : List (String × ℕ))
    → some_of (λ w. nat_beq w.1 r) ws ≡ true
    → told r tensor (map (arrival tensor rank info) ws) ≡ true
told-map tensor rank r info [] h = cc
told-map tensor rank r info ((node, worker) ∷ ws) h =
    ground (arith, beq_refl tensor, told-map tensor rank r info ws)

notify-none :
    (tensor : String) (rank : ℕ) (s : Lazy)
    → lookup tensor s.lazy_input_dependents ≡ none
    → notify_lazy_input_available tensor rank s ≡ s
unfolding notify_lazy_input_available
notify-none tensor rank s nobody = rw (nobody, notify_lazy_input_available) refl

notify-some :
    (tensor : String) (rank : ℕ) (s : Lazy) (ws : List (String × ℕ))
    → lookup tensor s.lazy_input_dependents ≡ some ws
    → is_stored tensor rank (arrived s.tensor_map) ≡ true
    → (info : TensorInfo) × (notify_lazy_input_available tensor rank s ≡ record s {
      lazy_input_dependents = erase tensor s.lazy_input_dependents;
      sent = s.sent ++ map (arrival tensor rank info) ws;
    })
unfolding notify_lazy_input_available
notify-some tensor rank s ws waiting here =
    let (info, messages) = notifications-stored tensor rank (arrived s.tensor_map) ws here in
    (info, rw (waiting, messages, notify_lazy_input_available) refl)

waiting_for-erase :
    (t tensor : String) (d : Dict String (List (String × ℕ)))
    → (tensor == t) ≡ false
    → waiting_for t (erase tensor d) ≡ waiting_for t d
unfolding waiting_for
waiting_for-erase t tensor d other = rw (lookup-erase, other, waiting_for) refl

contains-erase :
    (t tensor : String) (d : Dict String (List (String × ℕ)))
    → contains t (erase tensor d) ≡ true
    → ((tensor == t) ≡ false) × (contains t d ≡ true)
contains-erase t tensor d h = elim (Bool-cases (tensor == t)) [
  | inl same ↦ let no : false ≡ true = rw (lookup-erase, same) at h in cc
  | inr other ↦ (other, rw (lookup-erase, other) at h)
]

-- The state from which a notification runs, which is taken off the queue.
abbrev pub IsDue : String → ℕ → Lazy → Type 0
IsDue tensor rank s = IsAwake (record s { notifying = (tensor, rank) ∷ s.notifying })

pub notify-IsAwake :
    (tensor : String) (rank : ℕ) (s : Lazy)
    → IsDue tensor rank s
    → IsAwake (notify_lazy_input_available tensor rank s)
notify-IsAwake tensor rank s a = elim (Option-cases (lookup tensor s.lazy_input_dependents)) [
  | inl nobody ↦ subst IsAwake (sym (notify-none tensor rank s nobody)) (record {
    stored = a.stored.1;
    awake = λ t waited here.
        let due = a.awake t waited here in
        elim (Bool-cases (tensor == t)) [
          | inr other ↦ ground arith
          | inl same ↦
              let e : tensor ≡ t = (string_eq.beq_iff tensor t).0 same in
              let nobody' : lookup t s.lazy_input_dependents ≡ none = rw e at nobody in
              let no : false ≡ true = rw nobody' at waited in cc
        ];
  })
  | inr (ws, waiting) ↦
      let (info, e) = notify-some tensor rank s ws waiting a.stored.0 in
      subst IsAwake (sym e) (record {
        stored = a.stored.1;
        awake = λ t waited here.
            let (other, waited') = contains-erase t tensor s.lazy_input_dependents waited in
            let due = a.awake t waited' here in ground arith;
      })
]

pub notify-served :
    (tensor : String) (rank : ℕ) (s : Lazy) (r : ℕ) (t : String)
    → is_stored tensor rank (arrived s.tensor_map) ≡ true
    → is_served r t s ≡ true
    → is_served r t (notify_lazy_input_available tensor rank s) ≡ true
unfolding waiting_for
notify-served tensor rank s r t here h =
    elim (Option-cases (lookup tensor s.lazy_input_dependents)) [
      | inl nobody ↦ subst (λ q. is_served r t q ≡ true) (sym (notify-none tensor rank s nobody)) h
      | inr (ws, waiting) ↦
          let (info, e) = notify-some tensor rank s ws waiting here in
          let told_too =
            some_of-append (λ m. nat_beq m.to_worker r && m.tensor_id == t) s.sent
              (map (arrival tensor rank info) ws) in
          subst (λ q. is_served r t q ≡ true) (sym e)
            (elim (Bool-cases (tensor == t)) [
              | inr other ↦
                  rw (waiting_for-erase t tensor s.lazy_input_dependents other) (ground arith)
              | inl same ↦
                  let e' : tensor ≡ t = (string_eq.beq_iff tensor t).0 same in
                  let w : waiting_for t s.lazy_input_dependents ≡ ws =
                    subst (λ x. waiting_for x s.lazy_input_dependents ≡ ws) e'
                      (rw (waiting, waiting_for) refl) in
                  let h' : (some_of (λ w. nat_beq w.1 r) ws || told r t s.sent) ≡ true =
                    rw w at h in
                  let mapped : some_of (λ w. nat_beq w.1 r) ws ≡ true
                      → told r t (map (arrival tensor rank info) ws) ≡ true =
                    λ x.
                      subst (λ y. told r y (map (arrival tensor rank info) ws) ≡ true) e'
                        (told-map tensor rank r info ws x) in
                  ground (arith, mapped)
            ])
    ]
