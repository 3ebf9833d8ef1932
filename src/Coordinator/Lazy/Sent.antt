-- ===== src/Coordinator/Lazy/Sent.antt =====
-- What a task is sent with, and who is served from then on (coordinator.py).
use mathlib.Core.Path.{subst}
use diflow.Prelude.{
  ℕ, ◌≡◌, refl, sym, ◌∙◌, arith, true, none, some, [], ◌∷◌, String, string_eq, nat_eq, ◌==◌, Dict,
  IsDict, lookup, insert, contains, lookup-insert, Bool-cases, Option-cases, ◌⊎◌, inl, inr,
}
use diflow.Scheduler.Task.{TensorInfo}
use diflow.Coordinator.Lazy.{arrived, Lazy, add_dependent, give_lazy_inputs}
use diflow.Coordinator.Lazy.Awake.{
  waits, is_served, IsAwake, waits_now, waits_still, add_dependent-IsAwake,
}

abbrev pub Sent : Type 0
Sent = (Dict String (Dict ℕ TensorInfo) × Dict String String) × Lazy

abbrev pub keep_lazy : String → String → Sent → Sent
keep_lazy name tensor ((locations, left), s) = ((locations, (name, tensor) ∷ left), s)

pub send-arrived :
    (node : String) (rank : ℕ) (name tensor : String) (inputs : Dict String String)
    (locations : Dict String (Dict ℕ TensorInfo)) (s : Lazy) (copies : Dict ℕ TensorInfo)
    → lookup tensor (arrived s.tensor_map) ≡ some copies
    → give_lazy_inputs node rank ((name, tensor) ∷ inputs) locations s
      ≡ give_lazy_inputs node rank inputs (insert name copies locations) s
unfolding give_lazy_inputs
send-arrived node rank name tensor inputs locations s copies found =
    rw (found, give_lazy_inputs) refl

pub send-missing :
    (node : String) (rank : ℕ) (name tensor : String) (inputs : Dict String String)
    (locations : Dict String (Dict ℕ TensorInfo)) (s : Lazy)
    → lookup tensor (arrived s.tensor_map) ≡ none
    → give_lazy_inputs node rank ((name, tensor) ∷ inputs) locations s
      ≡ keep_lazy name tensor
          (give_lazy_inputs node rank inputs locations (add_dependent node rank tensor s))
unfolding give_lazy_inputs
send-missing node rank name tensor inputs locations s missing = rw (missing, give_lazy_inputs) refl

pub give_lazy_inputs-IsAwake :
    (node : String) (rank : ℕ) (inputs : Dict String String)
    (locations : Dict String (Dict ℕ TensorInfo)) (s : Lazy)
    → IsAwake s
    → IsAwake (give_lazy_inputs node rank inputs locations s).1
unfolding give_lazy_inputs
give_lazy_inputs-IsAwake node rank [] locations s a = a
give_lazy_inputs-IsAwake node rank ((name, tensor) ∷ inputs) locations s a =
    elim (Option-cases (lookup tensor (arrived s.tensor_map))) [
      | inr (copies, found) ↦
          rw (send-arrived node rank name tensor inputs locations s copies found)
            (give_lazy_inputs-IsAwake node rank inputs (insert name copies locations) s a)
      | inl missing ↦ rw (send-missing node rank name tensor inputs locations s missing) (
          give_lazy_inputs-IsAwake node rank inputs locations (add_dependent node rank tensor s)
            (add_dependent-IsAwake node rank tensor s missing a))
    ]

served_still :
    (node : String) (rank : ℕ) (tensor : String) (s : Lazy) (r : ℕ) (t : String)
    → is_served r t s ≡ true
    → is_served r t (add_dependent node rank tensor s) ≡ true
unfolding add_dependent
served_still node rank tensor s r t h = ground (arith, waits_still node rank r tensor t s)

-- Sending goes on serving whoever was served.
pub send-served :
    (node : String) (rank : ℕ) (inputs : Dict String String)
    (locations : Dict String (Dict ℕ TensorInfo)) (s : Lazy) (r : ℕ) (t : String)
    → is_served r t s ≡ true
    → is_served r t (give_lazy_inputs node rank inputs locations s).1 ≡ true
unfolding give_lazy_inputs
send-served node rank [] locations s r t h = h
send-served node rank ((name, tensor) ∷ inputs) locations s r t h =
    elim (Option-cases (lookup tensor (arrived s.tensor_map))) [
      | inr (copies, found) ↦
          rw (send-arrived node rank name tensor inputs locations s copies found)
            (send-served node rank inputs (insert name copies locations) s r t h)
      | inl missing ↦ rw (send-missing node rank name tensor inputs locations s missing) (
          send-served node rank inputs locations (add_dependent node rank tensor s) r t
            (served_still node rank tensor s r t h))
    ]

-- A task's lazy input is served, or gets its copies.
pub send-locations :
    (node : String) (rank : ℕ) (inputs : Dict String String)
    (locations : Dict String (Dict ℕ TensorInfo)) (s : Lazy) (name : String)
    → lookup name inputs ≡ none
    → lookup name (give_lazy_inputs node rank inputs locations s).0.0 ≡ lookup name locations
unfolding give_lazy_inputs lookup
send-locations node rank [] locations s name h = refl
send-locations node rank ((other, tensor) ∷ inputs) locations s name h =
    elim (Bool-cases (other == name)) [
      | inl same ↦ let no = rw same at h in cc
      | inr differs ↦
          let h' : lookup name inputs ≡ none = rw differs at h in
          elim (Option-cases (lookup tensor (arrived s.tensor_map))) [
            | inr (copies, found) ↦
                rw (send-arrived node rank other tensor inputs locations s copies found) (
                  send-locations node rank inputs (insert other copies locations) s name h'
                  ∙ rw (lookup-insert, differs) refl)
            | inl missing ↦ rw (send-missing node rank other tensor inputs locations s missing) (
                send-locations node rank inputs locations (add_dependent node rank tensor s) name
                  h')
          ]
    ]

some-injective : {A : Type 0} {a b : A} → some a ≡ some b → a ≡ b
some-injective h = cc

pub send-first :
    (node : String) (rank : ℕ) (inputs : Dict String String)
    (locations : Dict String (Dict ℕ TensorInfo)) (s : Lazy) (name tensor : String)
    → IsDict inputs
    → lookup name inputs ≡ some tensor
    → ((lookup name (give_lazy_inputs node rank inputs locations s).0.0
          ≡ lookup tensor (arrived s.tensor_map))
        × (contains tensor (arrived s.tensor_map) ≡ true))
      ⊎ (is_served rank tensor (give_lazy_inputs node rank inputs locations s).1 ≡ true)
unfolding give_lazy_inputs lookup add_dependent
send-first node rank [] locations s name tensor once h = cc
send-first node rank ((other, t) ∷ inputs) locations s name tensor (new, once) h =
    elim (Bool-cases (other == name)) [
      | inl same ↦
          let e : other ≡ name = (string_eq.beq_iff other name).0 same in
          let e' : t ≡ tensor = (let h' = rw same at h in some-injective h') in
          let new' : lookup name inputs ≡ none = rw e at new in
          elim (Option-cases (lookup t (arrived s.tensor_map))) [
            | inr (copies, found) ↦
                rw (send-arrived node rank other t inputs locations s copies found) (
                  let found' : lookup tensor (arrived s.tensor_map) ≡ some copies =
                    rw e' at found in
                  let kept : lookup name (insert other copies locations) ≡ some copies =
                    rw (lookup-insert, same) refl in
                  inl (
                    send-locations node rank inputs (insert other copies locations) s name new'
                        ∙ kept
                        ∙ sym found',
                    rw found' refl,
                  ))
            | inl missing ↦ rw (send-missing node rank other t inputs locations s missing) (
                let now : waits rank tensor (add_dependent node rank t s) ≡ true =
                  subst (λ x. waits rank x (add_dependent node rank t s) ≡ true) e'
                    (waits_now node rank t s) in
                inr (
                  send-served node rank inputs locations (add_dependent node rank t s) rank tensor
                    (ground arith)))
          ]
      | inr differs ↦
          let h' : lookup name inputs ≡ some tensor = rw differs at h in
          elim (Option-cases (lookup t (arrived s.tensor_map))) [
            | inr (copies, found) ↦
                rw (send-arrived node rank other t inputs locations s copies found) (
                  send-first node rank inputs (insert other copies locations) s name tensor once h')
            | inl missing ↦ rw (send-missing node rank other t inputs locations s missing) (
                send-first node rank inputs locations (add_dependent node rank t s) name tensor once
                  h')
          ]
    ]
