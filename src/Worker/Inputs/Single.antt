-- ===== src/Worker/Inputs/Single.antt =====
-- One input of a task that the coordinator (coordinator.py) prepared, as a worker (worker.py) collects
-- it.
use diflow.Prelude.{
  not, ℕ, ◌≡◌, refl, arith, Bool, true, false, ◌||◌, Option, none, some, [], ◌∷◌, String, string_eq,
  nat_eq, ◌==◌, if◌then◌else◌, Dict, lookup, insert, contains, lookup-insert, ok, Bool-cases,
  Option-cases, inl, inr,
}
use diflow.Workflow.{NodeIo}
use diflow.Scheduler.Task.{TensorInfo}
use diflow.Coordinator.Inputs.{RequestSources, Prepared}
use diflow.Coordinator.Inputs.Entries.{Entry, no_entry, entry_of, eager_entry}
use diflow.Worker.Inputs.{
  NodeInput, value, tensor, lazily, Engine, Collected, put, tensors_of, keep, collect_remote,
  collect_local, collect_input,
}

-- What a task says of an input when it is sent, where `stored` are the tensors known then.
abbrev pub sent_entry :
    {V : Type 0} → RequestSources V → Dict String (Dict ℕ TensorInfo) → NodeIo → Entry V
sent_entry s stored io =
    if io.lazy
    then elim (lookup io.name stored) [
      | none ↦ record no_entry { later = some io.name }
      | some copies ↦ record no_entry { copies = some copies }
    ]
    else eager_entry s io.name

module _ {V T : Type 0} where
  abbrev pub is_held : String → String → Collected V T → Bool
  is_held request id c = contains id (tensors_of request c.tensor_map)

  -- Where `stored` are the tensors that the coordinator knows when it sends the task: a lazy input that
  -- is stored is a tensor, another one a function; one that the request gives is that value, any other
  -- is a tensor.
  abbrev pub IsDelivered :
      RequestSources V → Dict String (Dict ℕ TensorInfo) → NodeIo → NodeInput V T → Type 0
  IsDelivered s stored io given =
      if io.lazy
      then elim (lookup io.name stored) [
        | none ↦ given ≡ lazily io.name
        | some copies ↦ (t : T) × (given ≡ tensor t)
      ]
      else elim (lookup io.name s.inputs) [
        | some v ↦ given ≡ value (some v)
        | none ↦ (t : T) × (given ≡ tensor t)
      ]

  -- A tensor of the coordinator's table that the worker can get: from itself if it is listed there,
  -- else from the first worker listed.
  abbrev pub is_reachable : ℕ → String → Collected V T → String → Option (Dict ℕ TensorInfo) → Bool
  is_reachable rank request c id none = false
  is_reachable rank request c id (some []) = false
  is_reachable rank request c id (some (copy ∷ copies)) =
      if contains rank (copy ∷ copies) then is_held request id c else true

  abbrev pub IsAvailable :
      RequestSources V
      → Dict String (Dict ℕ TensorInfo)
      → ℕ
      → String
      → Collected V T
      → String × NodeIo
      → Type 0
  IsAvailable s stored rank request c e =
      (if e.1.lazy
        then not (contains e.1.name stored)
          || is_reachable rank request c e.1.name (lookup e.1.name stored)
        else contains e.1.name s.inputs
          || is_reachable rank request c e.1.name (lookup e.1.name s.tensor_map))
      ≡ true

  -- One input was collected; what the worker held it still holds.
  pub record IsPut (s : RequestSources V) (stored : Dict String (Dict ℕ TensorInfo))
      (request name : String) (io : NodeIo) (c c' : Collected V T) : Type 0 where
    pub given : NodeInput V T
    pub delivered : IsDelivered s stored io given
    pub written :
        (other : String)
        → lookup other c'.node_inputs
          ≡ (if name == other then some given else lookup other c.node_inputs)
    pub held : (id : String) → is_held request id c ≡ true → is_held request id c' ≡ true

  is_held-keep :
      (engine : Engine T) (request id other : String) (t : T) (c : Collected V T)
      → is_held request other c ≡ true
      → is_held request other (keep engine request id t c) ≡ true
  is_held-keep engine request id other t c h = ground (
    arith,
    lookup-insert request request (insert id t (tensors_of request c.tensor_map)) c.tensor_map,
    string_eq.beq_iff request request,
    lookup-insert id other t (tensors_of request c.tensor_map),
  )

  collect_remote_total :
      (engine : Engine T) (request name id : String) (rank : ℕ) (info : TensorInfo)
      (copies : Dict ℕ TensorInfo) (c : Collected V T)
      → collect_remote engine request name id ((rank, info) ∷ copies) c
        ≡ ok (
            put name
              (tensor (engine.fetch id info rank))
              (keep engine request id (engine.fetch id info rank) c))
  unfolding collect_remote
  collect_remote_total engine request name id rank info copies c = refl

  collect_local_total :
      (request name id : String) (c : Collected V T)
      → is_held request id c ≡ true
      → (t : T) × (collect_local request name id c ≡ ok (put name (tensor t) c))
  unfolding collect_local lookup
  collect_local_total request name id c h = elim (Option-cases (lookup request c.tensor_map)) [
    | inl unknown ↦ absurd (no_tensor request id c unknown h)
    | inr (tensors, found) ↦ elim (Option-cases (lookup id tensors)) [
      | inl missing ↦ absurd (ground arith)
      | inr (t, got) ↦ (t, rw (found, got) refl)
    ]
  ]
    where
      no_tensor :
          (request id : String) (c : Collected V T)
          → lookup request c.tensor_map ≡ none
          → is_held request id c ≡ true
          → ⊥
      no_tensor request id c unknown h = ground arith

module _ {V T : Type 0} (engine : Engine T) (s : RequestSources V)
    (stored : Dict String (Dict ℕ TensorInfo)) (rank : ℕ) (request : String) (p : Prepared V)
    (name : String) (io : NodeIo) (c : Collected V T) where
  put-IsPut :
      (given : NodeInput V T)
      → IsDelivered s stored io given
      → IsPut s stored request name io c (put name given c)
  put-IsPut given d = record {
    given = given;
    delivered = d;
    written = λ other. lookup-insert name other given c.node_inputs;
    held = λ id h. h;
  }

  collected_lazy :
      io.lazy ≡ true
      → lookup io.name stored ≡ none
      → lookup name p.node_input_locations ≡ none
      → lookup name p.lazy_inputs ≡ some io.name
      → (c' : Collected V T) × (collect_input engine rank request p name io.name c ≡ ok c')
        × IsPut s stored request name io c c'
  unfolding collect_input
  collected_lazy is_lazy missing no_copies later = (
    put name (lazily io.name) c,
    rw (no_copies, later, collect_input) refl,
    put-IsPut (lazily io.name) (rw (is_lazy, missing) refl),
  )

  collected_value :
      (v : V)
      → io.lazy ≡ false
      → lookup io.name s.inputs ≡ some v
      → lookup name p.node_input_locations ≡ none
      → lookup name p.lazy_inputs ≡ none
      → lookup name p.node_inputs ≡ some (some v)
      → (c' : Collected V T) × (collect_input engine rank request p name io.name c ≡ ok c')
        × IsPut s stored request name io c c'
  unfolding collect_input
  collected_value v eager from no_copies not_later found = (
    put name (value (some v)) c,
    rw (no_copies, not_later, found, collect_input) refl,
    put-IsPut (value (some v)) (rw (eager, from) refl),
  )

  collected_here :
      (copies : Dict ℕ TensorInfo)
      → ((t : T) → IsDelivered s stored io (tensor t))
      → lookup name p.node_input_locations ≡ some copies
      → contains rank copies ≡ true
      → is_held request io.name c ≡ true
      → (c' : Collected V T) × (collect_input engine rank request p name io.name c ≡ ok c')
        × IsPut s stored request name io c c'
  unfolding collect_input
  collected_here copies is_tensor found listed held =
      let (t, e) = collect_local_total request name io.name c held in
      (
        put name (tensor t) c,
        rw (found, listed, collect_input) e,
        put-IsPut (tensor t) (is_tensor t),
      )

  collected_there :
      (first : ℕ) (info : TensorInfo) (copies : Dict ℕ TensorInfo)
      → ((t : T) → IsDelivered s stored io (tensor t))
      → lookup name p.node_input_locations ≡ some ((first, info) ∷ copies)
      → contains rank ((first, info) ∷ copies) ≡ false
      → (c' : Collected V T) × (collect_input engine rank request p name io.name c ≡ ok c')
        × IsPut s stored request name io c c'
  unfolding collect_input
  collected_there first info copies is_tensor found unlisted =
      let t = engine.fetch io.name info first in
      (
        put name (tensor t) (keep engine request io.name t c),
        rw (found, unlisted, collect_input)
            (collect_remote_total engine request name io.name first info copies c),
        record {
          given = tensor t;
          delivered = is_tensor t;
          written = λ other. lookup-insert name other (tensor t) c.node_inputs;
          held = λ id h. is_held-keep engine request io.name id t c h;
        },
      )

  collected_stored :
      (copies : Dict ℕ TensorInfo)
      → ((t : T) → IsDelivered s stored io (tensor t))
      → lookup name p.node_input_locations ≡ some copies
      → is_reachable rank request c io.name (some copies) ≡ true
      → (c' : Collected V T) × (collect_input engine rank request p name io.name c ≡ ok c')
        × IsPut s stored request name io c c'
  collected_stored [] is_tensor found reach = cc
  collected_stored ((first, info) ∷ copies) is_tensor found reach =
      elim (Bool-cases (contains rank ((first, info) ∷ copies))) [
        | inl listed ↦
            collected_here ((first, info) ∷ copies) is_tensor found listed (rw listed at reach)
        | inr unlisted ↦ collected_there first info copies is_tensor found unlisted
      ]

  pub collected :
      IsAvailable s stored rank request c (name, io)
      → entry_of name p ≡ sent_entry s stored io
      → (c' : Collected V T) × (collect_input engine rank request p name io.name c ≡ ok c')
        × IsPut s stored request name io c c'
  unfolding eager_entry
  collected available says = elim (Bool-cases io.lazy) [
    | inl lazy ↦ elim (Option-cases (lookup io.name stored)) [
      | inl missing ↦
          let e = rw (lazy, missing) at says in
          collected_lazy lazy missing (ground arith) (ground arith)
      | inr (copies, known) ↦
          let e = rw (lazy, known) at says in
          collected_stored copies (λ t. rw (lazy, known) (t, refl)) (ground arith)
            (rw (lazy, known) at available)
    ]
    | inr eager ↦ elim (Option-cases (lookup io.name s.inputs)) [
      | inr (v, from) ↦
          let e = rw (eager, from, eager_entry) at says in
          collected_value v eager from (ground arith) (ground arith) (ground arith)
      | inl not_given ↦ elim (Option-cases (lookup io.name s.tensor_map)) [
        | inl missing ↦ let no : false ≡ true = rw (eager, not_given, missing) at available in cc
        | inr (copies, held) ↦
            let e = rw (eager, not_given, held, eager_entry) at says in
            collected_stored copies (λ t. rw (eager, not_given) (t, refl)) (ground arith)
              (rw (eager, not_given, held) at available)
      ]
    ]
  ]
