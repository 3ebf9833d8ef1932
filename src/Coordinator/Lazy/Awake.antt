-- ===== src/Coordinator/Lazy/Awake.antt =====
-- Where nodes wait for a tensor that has arrived, its notification is still to run (coordinator.py).
use diflow.Prelude.{
  ℕ, ◌≡◌, refl, arith, Bool, true, ◌||◌, ◌&&◌, none, List, [], ◌∷◌, ◌++◌, String, string_eq, nat_eq,
  ◌==◌, beq_refl, if◌then◌else◌, nat_beq, nat_beq_iff, some_of, All, Dict, lookup, insert, contains,
  lookup-insert, lookup-insert_self, Bool-cases, inl, inr,
}
use diflow.Scheduler.Task.{TensorInfo}
use diflow.Coordinator.Lazy.{
  arrived, Arrival, Lazy, copies_of, store_tensor, store_tensors, waiting_for, same_waiter,
  add_waiter, add_dependent,
}

-- A message told the worker of the tensor.
abbrev pub told : ℕ → String → List Arrival → Bool
told rank tensor sent = some_of (λ m. nat_beq m.to_worker rank && m.tensor_id == tensor) sent

abbrev pub waits : ℕ → String → Lazy → Bool
waits rank tensor s = some_of (λ w. nat_beq w.1 rank) (waiting_for tensor s.lazy_input_dependents)

abbrev pub is_served : ℕ → String → Lazy → Bool
is_served rank tensor s = waits rank tensor s || told rank tensor s.sent

abbrev pub is_stored : String → ℕ → Dict String (Dict ℕ TensorInfo) → Bool
is_stored tensor rank tensors = contains rank (copies_of tensor tensors)

abbrev pub is_notified : String → List (String × ℕ) → Bool
is_notified tensor notifying = some_of (λ n. n.0 == tensor) notifying

-- What a notification is about is there, and a tensor that is there while nodes wait for it has a
-- notification that is still to run.
pub record IsAwake (s : Lazy) : Type 0 where
  pub stored : All (λ n. is_stored n.0 n.1 (arrived s.tensor_map) ≡ true) s.notifying
  pub awake :
      (tensor : String)
      → contains tensor s.lazy_input_dependents ≡ true
      → contains tensor (arrived s.tensor_map) ≡ true
      → is_notified tensor s.notifying ≡ true

pub some_of-append :
    {A : Type 0} (p : A → Bool) (xs ys : List A)
    → some_of p (xs ++ ys) ≡ (some_of p xs || some_of p ys)
some_of-append p [] ys = refl
some_of-append p (x ∷ xs) ys = ground (arith, some_of-append p xs ys)

copies_of-insert :
    (t tensor : String) (copies : Dict ℕ TensorInfo) (m : Dict String (Dict ℕ TensorInfo))
    → copies_of t (insert tensor copies m) ≡ (if tensor == t then copies else copies_of t m)
unfolding copies_of
copies_of-insert t tensor copies m = elim (Bool-cases (tensor == t)) [
  | inl same ↦ rw (lookup-insert, same, copies_of) refl
  | inr other ↦ rw (lookup-insert, other, copies_of) refl
]

is_stored-insert :
    (t tensor : String) (r rank : ℕ) (info : TensorInfo) (m : Dict String (Dict ℕ TensorInfo))
    → is_stored t r m ≡ true
    → is_stored t r (insert tensor (insert rank info (copies_of tensor m)) m) ≡ true
is_stored-insert t tensor r rank info m h = elim (Bool-cases (tensor == t)) [
  | inr other ↦ rw (copies_of-insert, other) h
  | inl same ↦
      let e : tensor ≡ t = (string_eq.beq_iff tensor t).0 same in
      rw (copies_of-insert, same, e)
        (elim (Bool-cases (nat_beq rank r)) [
          | inl here ↦ rw (lookup-insert, here) refl
          | inr there ↦ rw (lookup-insert, there) h
        ])
]

is_stored_now :
    (tensor : String) (rank : ℕ) (info : TensorInfo) (m : Dict String (Dict ℕ TensorInfo))
    → is_stored tensor rank (insert tensor (insert rank info (copies_of tensor m)) m) ≡ true
is_stored_now tensor rank info m = rw (copies_of-insert, beq_refl tensor, lookup-insert_self) refl

contains-insert :
    (t tensor : String) (copies : Dict ℕ TensorInfo) (m : Dict String (Dict ℕ TensorInfo))
    → contains t (insert tensor copies m) ≡ (tensor == t || contains t m)
contains-insert t tensor copies m = elim (Bool-cases (tensor == t)) [
  | inl same ↦ rw (lookup-insert, same) refl
  | inr other ↦ rw (lookup-insert, other) refl
]

All-stored :
    (tensor : String) (rank : ℕ) (info : TensorInfo) (m : Dict String (Dict ℕ TensorInfo))
    (notifying : List (String × ℕ))
    → All (λ n. is_stored n.0 n.1 m ≡ true) notifying
    → All
        (λ n. is_stored n.0 n.1 (insert tensor (insert rank info (copies_of tensor m)) m) ≡ true)
        (notifying ++ ((tensor, rank) ∷ []))
All-stored tensor rank info m [] h = (is_stored_now tensor rank info m, tt)
All-stored tensor rank info m ((t, r) ∷ notifying) (h, hs) =
    (is_stored-insert t tensor r rank info m h, All-stored tensor rank info m notifying hs)

store_tensor-IsAwake :
    (rank : ℕ) (tensor : String) (info : TensorInfo) (s : Lazy)
    → IsAwake s
    → IsAwake (store_tensor rank tensor info s)
unfolding store_tensor
store_tensor-IsAwake rank tensor info s a = record {
  stored = All-stored tensor rank info (arrived s.tensor_map) s.notifying a.stored;
  awake = λ t waited here.
      let here' = rw contains-insert at here in rw some_of-append (ground (arith, a.awake t));
}

pub store_tensors-IsAwake :
    (rank : ℕ) (infos : Dict String TensorInfo) (s : Lazy)
    → IsAwake s
    → IsAwake (store_tensors rank infos s)
unfolding store_tensors
store_tensors-IsAwake rank [] s a = a
store_tensors-IsAwake rank ((tensor, info) ∷ infos) s a =
    store_tensors-IsAwake rank infos (store_tensor rank tensor info s)
      (store_tensor-IsAwake rank tensor info s a)

-- The node waits from now on, and whoever waited still does.
pub waiting_for-insert :
    (t tensor : String) (w : List (String × ℕ)) (d : Dict String (List (String × ℕ)))
    → waiting_for t (insert tensor w d) ≡ (if tensor == t then w else waiting_for t d)
unfolding waiting_for
waiting_for-insert t tensor w d = elim (Bool-cases (tensor == t)) [
  | inl same ↦ rw (lookup-insert, same, waiting_for) refl
  | inr other ↦ rw (lookup-insert, other, waiting_for) refl
]

some_of-same :
    (node : String) (rank : ℕ) (ws : List (String × ℕ))
    → some_of (same_waiter (node, rank)) ws ≡ true
    → some_of (λ w. nat_beq w.1 rank) ws ≡ true
some_of-same node rank [] h = cc
some_of-same node rank ((n, r) ∷ ws) h =
    ground (arith, some_of-same node rank ws, nat_beq_iff rank r, nat_beq_iff r rank)

add_waiter-waits :
    (node : String) (rank : ℕ) (ws : List (String × ℕ))
    → some_of (λ w. nat_beq w.1 rank) (add_waiter (node, rank) ws) ≡ true
unfolding add_waiter
add_waiter-waits node rank ws = elim (Bool-cases (some_of (same_waiter (node, rank)) ws)) [
  | inl known ↦ rw (known, add_waiter) (some_of-same node rank ws known)
  | inr new ↦ rw (new, add_waiter) (rw some_of-append (ground (arith, nat_beq_iff rank rank)))
]

add_waiter-keeps :
    (node : String) (rank r : ℕ) (ws : List (String × ℕ))
    → some_of (λ w. nat_beq w.1 r) ws ≡ true
    → some_of (λ w. nat_beq w.1 r) (add_waiter (node, rank) ws) ≡ true
unfolding add_waiter
add_waiter-keeps node rank r ws h = elim (Bool-cases (some_of (same_waiter (node, rank)) ws)) [
  | inl known ↦ rw (known, add_waiter) h
  | inr new ↦ rw (new, add_waiter) (rw (some_of-append, h) refl)
]

pub waits_now :
    (node : String) (rank : ℕ) (tensor : String) (s : Lazy)
    → waits rank tensor (add_dependent node rank tensor s) ≡ true
unfolding add_dependent
waits_now node rank tensor s =
    rw (waiting_for-insert, beq_refl tensor)
      (add_waiter-waits node rank (waiting_for tensor s.lazy_input_dependents))

pub waits_still :
    (node : String) (rank r : ℕ) (tensor t : String) (s : Lazy)
    → waits r t s ≡ true
    → waits r t (add_dependent node rank tensor s) ≡ true
unfolding add_dependent
waits_still node rank r tensor t s h = elim (Bool-cases (tensor == t)) [
  | inr other ↦ rw (waiting_for-insert, other) h
  | inl same ↦
      let e : tensor ≡ t = (string_eq.beq_iff tensor t).0 same in
      rw (waiting_for-insert, same, e)
        (add_waiter-keeps node rank r (waiting_for t s.lazy_input_dependents) h)
]

contains_dependent :
    (t tensor : String) (w : List (String × ℕ)) (d : Dict String (List (String × ℕ)))
    → contains t (insert tensor w d) ≡ (tensor == t || contains t d)
contains_dependent t tensor w d = elim (Bool-cases (tensor == t)) [
  | inl same ↦ rw (lookup-insert, same) refl
  | inr other ↦ rw (lookup-insert, other) refl
]

pub add_dependent-IsAwake :
    (node : String) (rank : ℕ) (tensor : String) (s : Lazy)
    → lookup tensor (arrived s.tensor_map) ≡ none
    → IsAwake s
    → IsAwake (add_dependent node rank tensor s)
unfolding add_dependent
add_dependent-IsAwake node rank tensor s missing a = record {
  stored = a.stored;
  awake = λ t waited here. elim (Bool-cases (tensor == t)) [
    | inr other ↦ a.awake t (rw (contains_dependent, other) at waited) here
    | inl same ↦
        let e : tensor ≡ t = (string_eq.beq_iff tensor t).0 same in
        let missing' : lookup t (arrived s.tensor_map) ≡ none = rw e at missing in
        let no = rw missing' at here in cc
  ];
}
