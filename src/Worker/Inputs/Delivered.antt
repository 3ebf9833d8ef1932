-- ===== src/Worker/Inputs/Delivered.antt =====
-- What a worker (worker.py) collects for a task that the coordinator (coordinator.py) prepared.
use mathlib.Core.Path.{subst}
use diflow.Prelude.{
  ℕ, ◌≡◌, refl, sym, ap, ◌∙◌, arith, true, ◌||◌, Option, none, some, [], ◌∷◌, String, string_eq,
  nat_eq, nat_beq, length, is_some, ◌==◌, Dict, IsDict, All, All-map, lookup, ok, Bool-cases,
  Option-cases, inl, inr,
}
use diflow.Workflow.{NodeIo, WorkflowNode}
use diflow.Scheduler.Task.{TensorInfo}
use diflow.Coordinator.Inputs.{RequestSources, Prepared, prepare_task_inputs}
use diflow.Coordinator.Inputs.Lazies.{prepare_task_inputs-IsDict}
use diflow.Coordinator.Lazy.{Lazy, arrived, give_lazy_inputs, send_lazy_inputs, send_task}
use diflow.Coordinator.Lazy.Sent.{send-locations}
use diflow.Coordinator.Lazy.Given.{
  give_lazy_inputs-left, give_lazy_inputs-stored, give_lazy_inputs-missing,
}
use diflow.Coordinator.Inputs.Entries.{
  Entry, eager_entry, entry_of, no_entry, entry, IsInner, prepare_task_inputs_total,
}
use diflow.Worker.Inputs.{NodeInput, Engine, Collected, collect_inputs}
use diflow.Worker.Inputs.Single.{
  sent_entry, is_held, IsDelivered, is_reachable, IsAvailable, IsPut, collected,
}

abbrev given_task : {V : Type 0} → String → ℕ → Prepared V → Lazy → Prepared V
given_task node rank p lazy =
    let r = give_lazy_inputs node rank p.lazy_inputs p.node_input_locations lazy in
    record p { node_input_locations = r.0.0; lazy_inputs = r.0.1 }

-- A task is sent as soon as some tensor of its request is stored.
send_task-ok :
    {V : Type 0} (node : String) (rank : ℕ) (p : Prepared V) (lazy : Lazy)
    (stored : Dict String (Dict ℕ TensorInfo))
    → lazy.tensor_map ≡ some stored
    → send_task node rank p lazy
      ≡ ok (
        given_task node rank p lazy,
        (give_lazy_inputs node rank p.lazy_inputs p.node_input_locations lazy).1,
      )
unfolding send_task send_lazy_inputs
send_task-ok node rank p lazy stored has_tensors =
    let sent : (nat_beq (length p.lazy_inputs) 0 || is_some lazy.tensor_map) ≡ true =
      rw has_tensors (ground arith) in
    rw sent refl

entry-eq :
    {V : Type 0} (a b : Entry V)
    → a.value ≡ b.value
    → a.copies ≡ b.copies
    → a.later ≡ b.later
    → a ≡ b
entry-eq a b e f g = cc

eager_entry-later :
    {V : Type 0} (s : RequestSources V) (tensor : String) → (eager_entry s tensor).later ≡ none
unfolding eager_entry
eager_entry-later s tensor = elim (Option-cases (lookup tensor s.inputs)) [
  | inr (v, given) ↦ rw (given, eager_entry) refl
  | inl not_given ↦ elim (Option-cases (lookup tensor s.tensor_map)) [
    | inr (copies, held) ↦ rw (not_given, held, eager_entry) refl
    | inl missing ↦ rw (not_given, missing, eager_entry) refl
  ]
]

module _ {V T : Type 0} (engine : Engine T) (s : RequestSources V)
    (stored : Dict String (Dict ℕ TensorInfo)) (rank : ℕ) (request : String) (p : Prepared V) where
  still_reachable :
      (c c' : Collected V T) (id : String) (copies : Option (Dict ℕ TensorInfo))
      → (is_held request id c ≡ true → is_held request id c' ≡ true)
      → is_reachable rank request c id copies ≡ true
      → is_reachable rank request c' id copies ≡ true
  still_reachable c c' id none held h = h
  still_reachable c c' id (some []) held h = h
  still_reachable c c' id (some (copy ∷ copies)) held h = ground arith

  still-IsAvailable :
      (c c' : Collected V T) (e : String × NodeIo)
      → ((id : String) → is_held request id c ≡ true → is_held request id c' ≡ true)
      → IsAvailable s stored rank request c e
      → IsAvailable s stored rank request c' e
  still-IsAvailable c c' e held h = ground (
    arith,
    still_reachable c c' e.1.name (lookup e.1.name s.tensor_map) (held e.1.name),
    still_reachable c c' e.1.name (lookup e.1.name stored) (held e.1.name),
  )

  -- The inputs are collected, each once and under its name.
  record AreCollected (inputs : Dict String NodeIo) (c c' : Collected V T) : Type 0 where
    each :
        (name : String) (io : NodeIo)
        → lookup name inputs ≡ some io
        → (given : NodeInput V T) × (lookup name c'.node_inputs ≡ some given)
          × IsDelivered s stored io given
    others :
        (name : String)
        → lookup name inputs ≡ none
        → lookup name c'.node_inputs ≡ lookup name c.node_inputs

  AreCollected-cons :
      (key : String) (io : NodeIo) (inputs : Dict String NodeIo) (c c1 c2 : Collected V T)
      → lookup key inputs ≡ none
      → IsPut s stored request key io c c1
      → AreCollected inputs c1 c2
      → AreCollected ((key, io) ∷ inputs) c c2
  unfolding lookup
  AreCollected-cons key io inputs c c1 c2 fresh put_one rest = record {
    each = λ name wanted h. elim (Bool-cases (key == name)) [
      | inl same ↦
          let e : key ≡ name = (string_eq.beq_iff key name).0 same in
          let io_same : io ≡ wanted = ground arith in
          (
            put_one.given,
            ground (arith, rest.others name, put_one.written name, fresh, e),
            subst (λ x. IsDelivered s stored x put_one.given) io_same put_one.delivered,
          )
      | inr other ↦ rest.each name wanted (ground arith)
    ];
    others = λ name h. ground (arith, rest.others name, put_one.written name);
  }

  collect_inputs_total :
      (inputs : Dict String NodeIo) (c : Collected V T)
      → IsDict inputs
      → All (IsAvailable s stored rank request c) inputs
      → ((name : String) (io : NodeIo)
          → lookup name inputs ≡ some io
          → entry_of name p ≡ sent_entry s stored io)
      → (c' : Collected V T) × (collect_inputs engine rank request p inputs c ≡ ok c')
        × AreCollected inputs c c'
  unfolding collect_inputs lookup
  collect_inputs_total [] c once available says =
      (c, refl, record { each = λ name io h. cc; others = λ name h. refl })
  collect_inputs_total ((key, io) ∷ inputs) c once available says =
      let (c1, e, put_one) =
        collected engine s stored rank request p key io c available.0
          (says key io (ground (arith, string_eq.beq_iff key key))) in
      let (c2, f, rest) =
        collect_inputs_total inputs c1 once.1
          (All-map inputs (λ x. still-IsAvailable c c1 x put_one.held) available.1)
          (λ name wanted h.
            says name wanted (ground (arith, once.0, string_eq.beq_iff key name))) in
      (c2, rw e f, AreCollected-cons key io inputs c c1 c2 once.0 put_one rest)

-- What a prepared task says of an input of its node, before and after it is sent.
send_task-entry :
    {V : Type 0} (s : RequestSources V) (lazy : Lazy) (stored : Dict String (Dict ℕ TensorInfo))
    (node : String) (rank : ℕ) (p : Prepared V) (name : String) (io : NodeIo)
    → arrived lazy.tensor_map ≡ stored
    → IsDict p.lazy_inputs
    → entry_of name p ≡ entry s io
    → entry_of name (given_task node rank p lazy) ≡ sent_entry s stored io
unfolding entry
send_task-entry s lazy stored node rank p name io known once says = elim (Bool-cases io.lazy) [
  | inr eager ↦
      let says' : entry_of name p ≡ eager_entry s io.name = rw (eager, entry) at says in
      let not_lazy : lookup name p.lazy_inputs ≡ none =
        ap (λ x. x.later) says' ∙ eager_entry-later s io.name in
      rw eager (
        entry-eq _ _ (ap (λ x. x.value) says')
          (send-locations node rank p.lazy_inputs p.node_input_locations lazy name not_lazy
            ∙ ap (λ x. x.copies) says')
          (give_lazy_inputs-left node rank p.lazy_inputs p.node_input_locations lazy name not_lazy
            ∙ sym (eager_entry-later s io.name)))
  | inl is_lazy ↦
      let says' : entry_of name p ≡ record no_entry { later = some io.name } =
        rw (is_lazy, entry) at says in
      let listed : lookup name p.lazy_inputs ≡ some io.name = ap (λ x. x.later) says' in
      elim (Option-cases (lookup io.name stored)) [
        | inl missing ↦
            let (place, left) =
              give_lazy_inputs-missing node rank p.lazy_inputs p.node_input_locations lazy name
                io.name once listed (rw known missing) in
            rw (is_lazy, missing)
              (entry-eq _ _ (ap (λ x. x.value) says') (place ∙ ap (λ x. x.copies) says') left)
        | inr (copies, found) ↦
            let (place, left) =
              give_lazy_inputs-stored node rank p.lazy_inputs p.node_input_locations lazy name
                io.name copies once listed (rw known found) in
            rw (is_lazy, found) (entry-eq _ _ (ap (λ x. x.value) says') place left)
      ]
]

pub collect-prepare_task_inputs :
    {V T : Type 0} (engine : Engine T) (s : RequestSources V) (lazy : Lazy)
    (stored : Dict String (Dict ℕ TensorInfo)) (rank : ℕ) (request : String) (n : WorkflowNode)
    (c : Collected V T)
    → lazy.tensor_map ≡ some stored
    → IsDict n.inputs
    → All (IsInner s) n.inputs
    → All (IsAvailable s stored rank request c) n.inputs
    → (p : Prepared V) × (task : Prepared V) × (lazy' : Lazy) × (c' : Collected V T)
      × (prepare_task_inputs s n ≡ ok p)
      × (send_task n.name rank p lazy ≡ ok (task, lazy'))
      × (collect_inputs engine rank request task n.inputs c ≡ ok c')
      × ((name : String) (io : NodeIo)
          → lookup name n.inputs ≡ some io
          → (given : NodeInput V T) × (lookup name c'.node_inputs ≡ some given)
            × IsDelivered s stored io given)
collect-prepare_task_inputs engine s lazy stored rank request n c has_tensors once inner available =
    let (p, e, says) = prepare_task_inputs_total s n once inner in
    let task = given_task n.name rank p lazy in
    let (c', f, collected_all) =
      collect_inputs_total engine s stored rank request task n.inputs c once available (λ name io h.
        send_task-entry s lazy stored n.name rank p name io (ap arrived has_tensors)
          (prepare_task_inputs-IsDict s n p e) (rw h at (says name))) in
    (
      p,
      task,
      (give_lazy_inputs n.name rank p.lazy_inputs p.node_input_locations lazy).1,
      c',
      e,
      send_task-ok n.name rank p lazy stored has_tensors,
      f,
      collected_all.each,
    )
