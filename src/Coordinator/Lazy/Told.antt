-- ===== src/Coordinator/Lazy/Told.antt =====
-- A worker learns where each lazy input of its tasks is (coordinator.py).
use mathlib.Core.Path.{subst}
use diflow.Prelude.{
  none, ◌||◌, nat_beq, length, is_some, key_error, require-eq-ok, ok, ok-injective, sym, ap, ◌∙◌, ℕ,
  ◌≡◌, refl, true, false, some, List, [], ◌∷◌, String, string_eq, nat_eq, Dict, IsDict, lookup,
  contains, Option-cases, ◌⊎◌, inl, inr,
}
use diflow.Scheduler.Task.{TensorInfo}
use diflow.Coordinator.Lazy.{
  arrived, give_lazy_inputs, Lazy, store_tensor, store_tensors, waiting_for, send_lazy_inputs,
  notify_lazy_input_available,
}
use diflow.Coordinator.Lazy.Awake.{told, is_served, IsAwake, store_tensors-IsAwake}
use diflow.Coordinator.Lazy.Sent.{give_lazy_inputs-IsAwake, send-served, send-first}
use diflow.Coordinator.Lazy.Notified.{IsDue, notify-IsAwake, notify-served}

store_tensors-served :
    (rank : ℕ) (infos : Dict String TensorInfo) (s : Lazy) (r : ℕ) (t : String)
    → is_served r t s ≡ true
    → is_served r t (store_tensors rank infos s) ≡ true
unfolding store_tensors store_tensor
store_tensors-served rank [] s r t h = h
store_tensors-served rank ((tensor, info) ∷ infos) s r t h =
    store_tensors-served rank infos (store_tensor rank tensor info s) r t h

-- What happens to the lazy inputs of a request: a worker reports tensors, a task is sent, or the
-- event loop runs the oldest notification.
pub data Step (s : Lazy) : Lazy → Type 0 where
  report : (rank : ℕ) (infos : Dict String TensorInfo) → Step s (store_tensors rank infos s)
  send :
      (node : String) (rank : ℕ) (inputs : Dict String String)
      (locations : Dict String (Dict ℕ TensorInfo))
      (sent : Dict String (Dict ℕ TensorInfo) × Dict String String) (t : Lazy)
      → send_lazy_inputs node rank inputs locations s ≡ ok (sent, t)
      → Step s t
  notify :
      (tensor : String) (rank : ℕ) (rest : List (String × ℕ))
      → s.notifying ≡ (tensor, rank) ∷ rest
      → Step s (notify_lazy_input_available tensor rank (record s { notifying = rest }))

pub data Steps (s : Lazy) : Lazy → Type 0 where
  start : Steps s s
  more : {t u : Lazy} → Steps s t → Step t u → Steps s u

abbrev pub no_lazy : Lazy
no_lazy = record { tensor_map = none; lazy_input_dependents = []; notifying = []; sent = [] }

due :
    (tensor : String) (rank : ℕ) (rest : List (String × ℕ)) (s : Lazy)
    → IsAwake s
    → s.notifying ≡ (tensor, rank) ∷ rest
    → IsDue tensor rank (record s { notifying = rest })
due tensor rank rest s a e = record {
  stored = rw e at a.stored;
  awake = λ t waited here. rw e at (a.awake t waited here);
}

given :
    (node : String) (rank : ℕ) (inputs : Dict String String)
    (locations : Dict String (Dict ℕ TensorInfo)) (s : Lazy)
    (r : (Dict String (Dict ℕ TensorInfo) × Dict String String) × Lazy)
    → send_lazy_inputs node rank inputs locations s ≡ ok r
    → r ≡ give_lazy_inputs node rank inputs locations s
unfolding send_lazy_inputs
given node rank inputs locations s r e =
    let (_, e') = require-eq-ok (nat_beq (length inputs) 0 || is_some s.tensor_map) key_error e in
    sym (ok-injective e')

Step-IsAwake : (s t : Lazy) → Step s t → IsAwake s → IsAwake t
Step-IsAwake s _ (report rank infos) a = store_tensors-IsAwake rank infos s a
Step-IsAwake s _ (send node rank inputs locations sent u e) a =
    subst IsAwake (sym (ap (λ q. q.1) (given node rank inputs locations s (sent, u) e)))
      (give_lazy_inputs-IsAwake node rank inputs locations s a)
Step-IsAwake s _ (notify tensor rank rest e) a =
    notify-IsAwake tensor rank (record s { notifying = rest }) (due tensor rank rest s a e)

Step-served :
    (s t : Lazy) (r : ℕ) (name : String)
    → Step s t
    → IsAwake s
    → is_served r name s ≡ true
    → is_served r name t ≡ true
Step-served s _ r name (report rank infos) a h = store_tensors-served rank infos s r name h
Step-served s _ r name (send node rank inputs locations sent u e) a h =
    subst (λ q. is_served r name q ≡ true)
      (sym (ap (λ q. q.1) (given node rank inputs locations s (sent, u) e)))
      (send-served node rank inputs locations s r name h)
Step-served s _ r name (notify tensor rank rest e) a h =
    notify-served tensor rank (record s { notifying = rest }) r name
      (due tensor rank rest s a e).stored.0 h

Steps-IsAwake : (s t : Lazy) → Steps s t → IsAwake s → IsAwake t
Steps-IsAwake s _ start a = a
Steps-IsAwake s _ (more {t} {u} before step) a = Step-IsAwake t u step (Steps-IsAwake s t before a)

Steps-served :
    (s t : Lazy) (r : ℕ) (name : String)
    → Steps s t
    → IsAwake s
    → is_served r name s ≡ true
    → is_served r name t ≡ true
Steps-served s _ r name start a h = h
Steps-served s _ r name (more {t} {u} before step) a h =
    Step-served t u r name step (Steps-IsAwake s t before a) (Steps-served s t r name before a h)

no_lazy-IsAwake : IsAwake no_lazy
unfolding lookup
no_lazy-IsAwake = record {
  stored = tt;
  awake = λ t waited here. let no : false ≡ true = waited in cc;
}

-- Where nodes wait for a tensor that is there, and no notification is left, they were told.
told_at_rest :
    (s : Lazy) (r : ℕ) (tensor : String)
    → IsAwake s
    → contains tensor (arrived s.tensor_map) ≡ true
    → s.notifying ≡ []
    → is_served r tensor s ≡ true
    → told r tensor s.sent ≡ true
unfolding waiting_for
told_at_rest s r tensor a here done h =
    elim (Option-cases (lookup tensor s.lazy_input_dependents)) [
      | inl nobody ↦ rw (nobody, waiting_for) at h
      | inr (ws, waiting) ↦
          let due = a.awake tensor (rw waiting refl) here in
          let no : false ≡ true = rw done at due in cc
    ]

-- No lazy input is lost, in whatever order tasks are sent, tensors are reported and notifications
-- run: when a task has been sent, each of its lazy inputs went with the copies that were known
-- then, or its worker has been told of it as soon as the tensor has been reported and the
-- notifications have run. The names of the lazy inputs are distinct. A task with lazy inputs is not
-- sent while no tensor of its request is stored.
pub send_lazy_inputs-told :
    (s s' t : Lazy) (node : String) (rank : ℕ) (inputs left : Dict String String)
    (locations located : Dict String (Dict ℕ TensorInfo)) (name tensor : String)
    → Steps no_lazy s
    → send_lazy_inputs node rank inputs locations s ≡ ok ((located, left), s')
    → Steps s' t
    → IsDict inputs
    → lookup name inputs ≡ some tensor
    → contains tensor (arrived t.tensor_map) ≡ true
    → t.notifying ≡ []
    → ((lookup name located ≡ lookup tensor (arrived s.tensor_map))
        × (contains tensor (arrived s.tensor_map) ≡ true))
      ⊎ (told rank tensor t.sent ≡ true)
send_lazy_inputs-told s s' t node rank inputs left locations located name tensor before e after once
      listed here done =
    let same = given node rank inputs locations s ((located, left), s') e in
    let a = Steps-IsAwake no_lazy s before no_lazy-IsAwake in
    let a' : IsAwake s' =
      subst IsAwake (sym (ap (λ q. q.1) same))
        (give_lazy_inputs-IsAwake node rank inputs locations s a) in
    elim (send-first node rank inputs locations s name tensor once listed) [
      | inl (known, stored) ↦ inl (ap (λ q. lookup name q.0.0) same ∙ known, stored)
      | inr served ↦
          let served' : is_served rank tensor s' ≡ true =
            ap (λ q. is_served rank tensor q.1) same ∙ served in
          inr (
            told_at_rest t rank tensor (Steps-IsAwake s' t after a') here done
              (Steps-served s' t rank tensor after a' served'))
    ]
