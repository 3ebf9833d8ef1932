-- ===== src/Scheduler/Dynamic/Described.antt =====
-- What `_build_task_spec` (dynamic_scheduler.py) hands to the scheduling core.
use diflow.Prelude.{
  ℕ, ◌≤◌, ◌≡◌, refl, arith, true, some, List, [], ◌∷◌, ◌++◌, String, nat_eq, string_eq, length,
  length-append, All, Dict, lookup, ok,
}
use diflow.Scheduler.Task.{Task, TensorInfo}
use diflow.SchedulingCore.Task.{TaskSpec, starts_at_zero, ends_at, non_decreasing, check_task_spec}
use diflow.Scheduler.Dynamic.{
  Sources, no_sources, push_source, end_tensor, task_spec, get_tensor_size_bytes, add_sources,
  add_task_inputs, add_tasks, build_task_spec,
}

-- A worker with a host id holds a tensor whose dtype has a known width.
abbrev pub IsLocated : Dict ℕ ℕ → ℕ × TensorInfo → Type 0
IsLocated hosts (rank, info) =
    ((host : ℕ) × (lookup rank hosts ≡ some host))
    × ((bytes : ℕ) × (get_tensor_size_bytes info ≡ ok bytes))

abbrev pub IsLocatedTask : Dict ℕ ℕ → Task → Type 0
IsLocatedTask hosts t = All (λ e. All (IsLocated hosts) e.1) t.node_input_locations

-- The offsets start at zero, never fall, and the last is `last`, within the sources so far.
abbrev IsSound : ℕ → Sources → Type 0
IsSound last s =
    (starts_at_zero s.tensor_offsets ≡ true)
    × (ends_at last s.tensor_offsets ≡ true)
    × (non_decreasing s.tensor_offsets ≡ true)
    × (last ≤ length s.worker_ranks)
    × (length s.host_ids ≡ length s.worker_ranks)
    × (length s.sizes_bytes ≡ length s.worker_ranks)

abbrev IsClosed : Sources → Type 0
IsClosed s = IsSound (length s.worker_ranks) s

starts_at_zero-append :
    (os : List ℕ) (n : ℕ) → starts_at_zero os ≡ true → starts_at_zero (os ++ n ∷ []) ≡ true
unfolding starts_at_zero
starts_at_zero-append [] n h = cc
starts_at_zero-append (o ∷ os) n h = h

ends_at-append : (os : List ℕ) (n : ℕ) → ends_at n (os ++ n ∷ []) ≡ true
unfolding ends_at
ends_at-append [] n = ground arith
ends_at-append (o ∷ []) n = ground arith
ends_at-append (o ∷ p ∷ os) n = ends_at-append (p ∷ os) n

non_decreasing-append :
    (os : List ℕ) (last n : ℕ)
    → ends_at last os ≡ true
    → last ≤ n
    → non_decreasing os ≡ true
    → non_decreasing (os ++ n ∷ []) ≡ true
unfolding ends_at non_decreasing
non_decreasing-append [] last n e le h = refl
non_decreasing-append (o ∷ []) last n e le h = ground arith
non_decreasing-append (o ∷ p ∷ os) last n e le h =
    ground (arith, non_decreasing-append (p ∷ os) last n e le)

end_tensor-IsClosed : (last : ℕ) (s : Sources) → IsSound last s → IsClosed (end_tensor s)
end_tensor-IsClosed last s (starts, ends, grows, le, hosts, sizes) = (
  starts_at_zero-append s.tensor_offsets _ starts,
  ends_at-append s.tensor_offsets _,
  non_decreasing-append s.tensor_offsets last _ ends le grows,
  omega arith,
  hosts,
  sizes,
)

push_source-IsSound :
    (last : ℕ) (s : Sources) (rank host bytes : ℕ)
    → IsSound last s
    → IsSound last (push_source s rank host bytes)
push_source-IsSound last s rank host bytes (starts, ends, grows, le, hosts, sizes) =
    let ranks_length = length-append s.worker_ranks (rank ∷ []) in
    let hosts_length = length-append s.host_ids (host ∷ []) in
    let sizes_length = length-append s.sizes_bytes (bytes ∷ []) in
    (starts, ends, grows, omega arith, omega arith, omega arith)

add_sources-IsSound :
    (hosts : Dict ℕ ℕ) (last : ℕ) (s : Sources) (copies : Dict ℕ TensorInfo)
    → All (IsLocated hosts) copies
    → IsSound last s
    → (s' : Sources) × (add_sources hosts s copies ≡ ok s') × IsSound last s'
unfolding add_sources
add_sources-IsSound hosts last s [] located sound = (s, refl, sound)
add_sources-IsSound hosts last s ((rank, info) ∷ copies) (((host, known), (bytes, sized)), located)
      sound =
    rw (known, sized)
      (add_sources-IsSound hosts last (push_source s rank host bytes) copies located
        (push_source-IsSound last s rank host bytes sound))

add_task_inputs-IsClosed :
    (hosts : Dict ℕ ℕ) (s : Sources) (tensors : Dict String (Dict ℕ TensorInfo))
    → All (λ e. All (IsLocated hosts) e.1) tensors
    → IsClosed s
    → (s' : Sources) × (add_task_inputs hosts s tensors ≡ ok s') × IsClosed s'
unfolding add_task_inputs
add_task_inputs-IsClosed hosts s [] located closed = (s, refl, closed)
add_task_inputs-IsClosed hosts s ((name, copies) ∷ tensors) (first, located) closed =
    let (s', added, sound) =
      add_sources-IsSound hosts (length s.worker_ranks) s copies first closed in
    rw added (
      add_task_inputs-IsClosed hosts (end_tensor s') tensors located
        (end_tensor-IsClosed (length s.worker_ranks) s' sound))

add_tasks-IsClosed :
    (hosts : Dict ℕ ℕ) (s : Sources) (group : List Task)
    → All (IsLocatedTask hosts) group
    → IsClosed s
    → (s' : Sources) × (add_tasks hosts s group ≡ ok s') × IsClosed s'
unfolding add_tasks
add_tasks-IsClosed hosts s [] located closed = (s, refl, closed)
add_tasks-IsClosed hosts s (t ∷ group) (first, located) closed =
    let (s', added, closed') =
      add_task_inputs-IsClosed hosts s t.node_input_locations first closed in
    rw added (add_tasks-IsClosed hosts s' group located closed')

no_sources-IsClosed : IsClosed no_sources
unfolding starts_at_zero ends_at non_decreasing
no_sources-IsClosed = (refl, refl, refl, omega arith, refl, refl)

check_task_spec-IsClosed :
    (first : Task) (size : ℕ) (s : Sources)
    → IsClosed s
    → check_task_spec (task_spec first size s) ≡ ok (task_spec first size s)
unfolding check_task_spec task_spec
check_task_spec-IsClosed first size s (starts, ends, grows, le, hosts, sizes) =
    rw (hosts, sizes, starts, ends, grows) (ground arith)

-- Where every worker that holds an input of the group has a host id and every such tensor has a
-- dtype of known width, a group that is not empty is described without an error: the offsets,
-- workers, hosts and sizes that are collected always pass the checks of TaskSpec, and the batch
-- is as large as the group.
pub build_task_spec_total :
    (hosts : Dict ℕ ℕ) (first : Task) (group : List Task)
    → All (IsLocatedTask hosts) (first ∷ group)
    → (spec : TaskSpec) × (build_task_spec hosts (first ∷ group) ≡ ok spec)
      × (check_task_spec spec ≡ ok spec)
      × (spec.batch_size ≡ length (first ∷ group))
unfolding build_task_spec task_spec
build_task_spec_total hosts first group located =
    let (s, added, closed) =
      add_tasks-IsClosed hosts no_sources (first ∷ group) located no_sources-IsClosed in
    let checked = check_task_spec-IsClosed first (length (first ∷ group)) s closed in
    (task_spec first (length (first ∷ group)) s, rw added checked, checked, refl)
