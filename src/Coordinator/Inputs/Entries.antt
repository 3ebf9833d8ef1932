-- ===== src/Coordinator/Inputs/Entries.antt =====
-- What a prepared task says of each input of its node (coordinator.py).
use diflow.Prelude.{
  ℕ, ◌≡◌, refl, ◌∙◌, arith, true, not, ◌||◌, Option, none, some, [], ◌∷◌, String, string_eq, ◌==◌,
  if◌then◌else◌, Dict, IsDict, All, lookup, insert, contains, lookup-insert, ok, Bool-cases,
  Option-cases, inl, inr,
}
use diflow.Workflow.{NodeIo, WorkflowNode}
use diflow.Scheduler.Task.{TensorInfo}
use diflow.Coordinator.Inputs.{
  RequestSources, Prepared, unprepared, add_lazy, add_value, add_location, prepare_eager,
  prepare_input, prepare_inputs, prepare_outputs, prepare_task_inputs,
}

-- The task's entries for one input: a value, the workers that hold a tensor, a lazy tensor.
pub record Entry (V : Type 0) : Type 0 where
  pub value : Option (Option V)
  pub copies : Option (Dict ℕ TensorInfo)
  pub later : Option String

module _ {V : Type 0} where
  abbrev pub entry_of : String → Prepared V → Entry V
  entry_of name p = record {
    value = lookup name p.node_inputs;
    copies = lookup name p.node_input_locations;
    later = lookup name p.lazy_inputs;
  }

  abbrev pub no_entry : Entry V
  no_entry = record { value = none; copies = none; later = none }

  -- Where an input that is no output of the workflow is found.
  unfoldable pub eager_entry : RequestSources V → String → Entry V
  eager_entry s tensor = elim (lookup tensor s.inputs) [
    | some value ↦ record no_entry { value = some (some value) }
    | none ↦ elim (lookup tensor s.tensor_map) [
      | some copies ↦ record no_entry { value = some none; copies = some copies }
      | none ↦ no_entry
    ]
  ]

  unfoldable pub entry : RequestSources V → NodeIo → Entry V
  unfolding eager_entry
  entry s io = if io.lazy then record no_entry { later = some io.name } else eager_entry s io.name

  -- The input is lazy, given with the request, or no output of the workflow.
  abbrev pub IsInner : RequestSources V → String × NodeIo → Type 0
  IsInner s e =
      (e.1.lazy || (contains e.1.name s.inputs || not (contains e.1.name s.required_outputs)))
      ≡ true

  prepare_eager_total :
      (s : RequestSources V) (name tensor : String) (p : Prepared V)
      → (contains tensor s.inputs || not (contains tensor s.required_outputs)) ≡ true
      → entry_of name p ≡ no_entry
      → (p' : Prepared V) × (prepare_eager s name tensor p ≡ ok p')
        × ((other : String)
            → entry_of other p'
              ≡ (if name == other then eager_entry s tensor else entry_of other p))
  unfolding prepare_eager eager_entry
  prepare_eager_total s name tensor p inner fresh = elim (Option-cases (lookup tensor s.inputs)) [
    | inr (value, given) ↦ (
      add_value name (some value) p,
      rw (given, prepare_eager) refl,
      λ other.
          rw (given, eager_entry)
            (ground (
              arith,
              lookup-insert name other (some value) p.node_inputs,
              string_eq.beq_iff name other,
              fresh,
            )),
    )
    | inl not_given ↦ elim (Option-cases (lookup tensor s.required_outputs)) [
      | inr (final, out) ↦ absurd (ground arith)
      | inl inside ↦ elim (Option-cases (lookup tensor s.tensor_map)) [
        | inr (copies, stored) ↦ (
          add_location name copies p,
          rw (not_given, inside, stored, prepare_eager) refl,
          λ other.
              rw (not_given, stored, eager_entry)
                (ground (
                  arith,
                  lookup-insert name other none p.node_inputs,
                  lookup-insert name other copies p.node_input_locations,
                  string_eq.beq_iff name other,
                  fresh,
                )),
        )
        | inl missing ↦ (
          p,
          rw (not_given, inside, missing, prepare_eager) refl,
          λ other.
              rw (not_given, missing, eager_entry)
                (ground (arith, string_eq.beq_iff name other, fresh)),
        )
      ]
    ]
  ]

  prepare_input_total :
      (s : RequestSources V) (name : String) (io : NodeIo) (p : Prepared V)
      → IsInner s (name, io)
      → entry_of name p ≡ no_entry
      → (p' : Prepared V) × (prepare_input s name io p ≡ ok p')
        × ((other : String)
            → entry_of other p' ≡ (if name == other then entry s io else entry_of other p))
  unfolding prepare_input entry
  prepare_input_total s name io p inner fresh = elim (Bool-cases io.lazy) [
    | inl lazy ↦ (
      add_lazy name io.name (record p { input_map = insert name io.name p.input_map }),
      rw lazy refl,
      λ other. rw lazy (
          ground (
            arith,
            lookup-insert name other io.name p.lazy_inputs,
            string_eq.beq_iff name other,
            fresh,
          )),
    )
    | inr eager ↦
        let mapped = record p { input_map = insert name io.name p.input_map } in
        let (p', e, entries) = prepare_eager_total s name io.name mapped (ground arith) fresh in
        (p', rw eager e, λ other. rw eager (entries other))
  ]

  prepare_inputs_total :
      (s : RequestSources V) (inputs : Dict String NodeIo) (p : Prepared V)
      → IsDict inputs
      → All (IsInner s) inputs
      → ((name : String) → contains name inputs ≡ true → entry_of name p ≡ no_entry)
      → (p' : Prepared V) × (prepare_inputs s inputs p ≡ ok p')
        × ((name : String)
            → entry_of name p'
              ≡ elim (lookup name inputs) [ none ↦ entry_of name p | some io ↦ entry s io ])
  unfolding prepare_inputs lookup
  prepare_inputs_total s [] p once inner fresh = (p, refl, λ name. refl)
  prepare_inputs_total s ((key, io) ∷ inputs) p once inner fresh =
      let (p1, e, here) =
        prepare_input_total s key io p inner.0
          (fresh key (ground (arith, string_eq.beq_iff key key))) in
      let (p2, f, later) =
        prepare_inputs_total s inputs p1 once.1 inner.1 (λ name h.
          here name ∙ ground (arith, fresh name, once.0, h, string_eq.beq_iff key name)) in
      (
        p2,
        rw e f,
        λ name. ground (arith, later name, here name, once.0, string_eq.beq_iff key name),
      )

  pub prepare_outputs-entry :
      (s : RequestSources V) (outputs : Dict String NodeIo) (p : Prepared V) (name : String)
      → entry_of name (prepare_outputs s outputs p) ≡ entry_of name p
  unfolding prepare_outputs
  prepare_outputs-entry s [] p name = refl
  prepare_outputs-entry s ((key, io) ∷ outputs) p name = prepare_outputs-entry s outputs _ name

  -- A node none of whose inputs is an output of the workflow, except those that are lazy or given
  -- with the request: its task is prepared, and says of each input where it is.
  pub prepare_task_inputs_total :
      (s : RequestSources V) (n : WorkflowNode)
      → IsDict n.inputs
      → All (IsInner s) n.inputs
      → (p : Prepared V) × (prepare_task_inputs s n ≡ ok p)
        × ((name : String)
            → entry_of name p
              ≡ elim (lookup name n.inputs) [ none ↦ no_entry | some io ↦ entry s io ])
  unfolding prepare_task_inputs lookup
  prepare_task_inputs_total s n once inner =
      let (p, e, entries) =
        prepare_inputs_total s n.inputs unprepared once inner (λ name h. refl) in
      (
        prepare_outputs s n.outputs p,
        rw e refl,
        λ name. prepare_outputs-entry s n.outputs p name ∙ entries name,
      )
