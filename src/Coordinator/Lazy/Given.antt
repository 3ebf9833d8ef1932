-- ===== src/Coordinator/Lazy/Given.antt =====
-- What a task is sent with for each lazy input (coordinator.py).
use diflow.Prelude.{
  ℕ, ◌≡◌, refl, ap, ◌∙◌, none, some, [], ◌∷◌, String, string_eq, ◌==◌, Dict, IsDict, lookup, insert,
  lookup-insert, Bool-cases, Option-cases, inl, inr,
}
use diflow.Scheduler.Task.{TensorInfo}
use diflow.Coordinator.Lazy.{Lazy, arrived, add_dependent, give_lazy_inputs}
use diflow.Coordinator.Lazy.Sent.{send-arrived, send-missing, send-locations}

abbrev pub located :
    (Dict String (Dict ℕ TensorInfo) × Dict String String) × Lazy → Dict String (Dict ℕ TensorInfo)
located r = r.0.0

abbrev pub left_lazy :
    (Dict String (Dict ℕ TensorInfo) × Dict String String) × Lazy → Dict String String
left_lazy r = r.0.1

some-injective : {A : Type 0} {a b : A} → some a ≡ some b → a ≡ b
some-injective h = cc

-- Nothing else is added to the lazy inputs.
pub give_lazy_inputs-left :
    (node : String) (rank : ℕ) (inputs : Dict String String)
    (locations : Dict String (Dict ℕ TensorInfo)) (s : Lazy) (name : String)
    → lookup name inputs ≡ none
    → lookup name (left_lazy (give_lazy_inputs node rank inputs locations s)) ≡ none
unfolding give_lazy_inputs lookup
give_lazy_inputs-left node rank [] locations s name h = refl
give_lazy_inputs-left node rank ((other, tensor) ∷ inputs) locations s name h =
    elim (Bool-cases (other == name)) [
      | inl same ↦ let no = rw same at h in cc
      | inr differs ↦
          let h' : lookup name inputs ≡ none = rw differs at h in
          elim (Option-cases (lookup tensor (arrived s.tensor_map))) [
            | inr (copies, found) ↦
                rw (send-arrived node rank other tensor inputs locations s copies found)
                  (give_lazy_inputs-left node rank inputs (insert other copies locations) s name h')
            | inl missing ↦ rw (send-missing node rank other tensor inputs locations s missing) (
                rw differs (
                  give_lazy_inputs-left node rank inputs locations
                    (add_dependent node rank tensor s) name h'))
          ]
    ]

-- A lazy input whose tensor is stored is sent with its copies, and is lazy no more.
pub give_lazy_inputs-stored :
    (node : String) (rank : ℕ) (inputs : Dict String String)
    (locations : Dict String (Dict ℕ TensorInfo)) (s : Lazy) (name tensor : String)
    (copies : Dict ℕ TensorInfo)
    → IsDict inputs
    → lookup name inputs ≡ some tensor
    → lookup tensor (arrived s.tensor_map) ≡ some copies
    → (lookup name (located (give_lazy_inputs node rank inputs locations s)) ≡ some copies)
      × (lookup name (left_lazy (give_lazy_inputs node rank inputs locations s)) ≡ none)
unfolding give_lazy_inputs lookup add_dependent
give_lazy_inputs-stored node rank [] locations s name tensor copies once h k = cc
give_lazy_inputs-stored node rank ((other, t) ∷ inputs) locations s name tensor copies (new, once) h
      k =
    elim (Bool-cases (other == name)) [
      | inl same ↦
          let e : other ≡ name = (string_eq.beq_iff other name).0 same in
          let e' : t ≡ tensor = (let h' = rw same at h in some-injective h') in
          let found : lookup t (arrived s.tensor_map) ≡ some copies = rw e' k in
          let new' : lookup name inputs ≡ none = rw e at new in
          let kept : lookup name (insert other copies locations) ≡ some copies =
            rw (lookup-insert, same) refl in
          rw (send-arrived node rank other t inputs locations s copies found) (
            send-locations node rank inputs (insert other copies locations) s name new' ∙ kept,
            give_lazy_inputs-left node rank inputs (insert other copies locations) s name new',
          )
      | inr differs ↦
          let h' : lookup name inputs ≡ some tensor = rw differs at h in
          elim (Option-cases (lookup t (arrived s.tensor_map))) [
            | inr (copies', found) ↦
                rw (send-arrived node rank other t inputs locations s copies' found) (
                  give_lazy_inputs-stored node rank inputs (insert other copies' locations) s name
                    tensor copies once h' k)
            | inl missing ↦ rw (send-missing node rank other t inputs locations s missing) (
                rw differs (
                  give_lazy_inputs-stored node rank inputs locations (add_dependent node rank t s)
                    name tensor copies once h' k))
          ]
    ]

-- One whose tensor is not stored stays lazy, without a location.
pub give_lazy_inputs-missing :
    (node : String) (rank : ℕ) (inputs : Dict String String)
    (locations : Dict String (Dict ℕ TensorInfo)) (s : Lazy) (name tensor : String)
    → IsDict inputs
    → lookup name inputs ≡ some tensor
    → lookup tensor (arrived s.tensor_map) ≡ none
    → (lookup name (located (give_lazy_inputs node rank inputs locations s))
        ≡ lookup name locations)
      × (lookup name (left_lazy (give_lazy_inputs node rank inputs locations s)) ≡ some tensor)
unfolding give_lazy_inputs lookup add_dependent
give_lazy_inputs-missing node rank [] locations s name tensor once h k = cc
give_lazy_inputs-missing node rank ((other, t) ∷ inputs) locations s name tensor (new, once) h k =
    elim (Bool-cases (other == name)) [
      | inl same ↦
          let e : other ≡ name = (string_eq.beq_iff other name).0 same in
          let e' : t ≡ tensor = (let h' = rw same at h in some-injective h') in
          let missing : lookup t (arrived s.tensor_map) ≡ none = rw e' k in
          let new' : lookup name inputs ≡ none = rw e at new in
          rw (send-missing node rank other t inputs locations s missing) (
            send-locations node rank inputs locations (add_dependent node rank t s) name new',
            rw same (ap (λ x. some x) e'),
          )
      | inr differs ↦
          let h' : lookup name inputs ≡ some tensor = rw differs at h in
          elim (Option-cases (lookup t (arrived s.tensor_map))) [
            | inr (copies', found) ↦
                rw (send-arrived node rank other t inputs locations s copies' found) (
                  let (same_place, still) =
                    give_lazy_inputs-missing node rank inputs (insert other copies' locations) s
                      name tensor once h' k in
                  (same_place ∙ rw (lookup-insert, differs) refl, still))
            | inl missing ↦ rw (send-missing node rank other t inputs locations s missing) (
                rw differs (
                  give_lazy_inputs-missing node rank inputs locations (add_dependent node rank t s)
                    name tensor once h' k))
          ]
    ]
