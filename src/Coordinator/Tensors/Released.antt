-- ===== src/Coordinator/Tensors/Released.antt =====
-- Which tensors a worker is told to free when a node completes (coordinator.py).
use mathlib.Core.List.{Permᴰ}
use mathlib.Core.Path.{subst}
use diflow.Prelude.{
  ℕ, ◌+◌, ◌≤◌, ◌≡◌, refl, sym, ◌∙◌, ap, arith, Bool, true, false, ◌&&◌, ◌||◌, none, some, List, [],
  ◌∷◌, ◌++◌, String, ◌==◌, string_eq, nat_eq, nat_beq, ltb, if◌then◌else◌, Dict, keys, contains,
  lookup, insert, lookup-insert, member, member-append, ok, Option-cases, inl, inr,
}
use diflow.Json.{ℤ, pos}
use diflow.Workflow.{WorkflowNode}
use diflow.Scheduler.Task.{TensorInfo}
use diflow.Coordinator.Tensors.{
  Tensors, FreeDict, start_counts, drop_inputs, freed, requests_of, add_free, add_free_on,
  add_free_all, update_free_tensor_dict,
}
use diflow.Coordinator.Tensors.Counted.{
  uses, uses_in, uses_in-append, uses_in-perm, IsRemaining, start_counts-IsRemaining,
  drop_inputs-IsDropped,
}

freed-add_free :
    (request q tensor : String) (rank r : ℕ) (free : FreeDict)
    → freed r q (add_free request tensor rank free) ≡ (
        if (rank == r) && (request == q)
        then freed rank request free ++ tensor ∷ []
        else freed r q free)
unfolding add_free lookup
freed-add_free request q tensor rank r free = ground (
  arith,
  lookup-insert rank r
      (insert request (freed rank request free ++ tensor ∷ []) (requests_of rank free)) free,
  lookup-insert request q (freed rank request free ++ tensor ∷ []) (requests_of rank free),
  nat_eq.beq_iff rank r,
)

member-add_free :
    (request q tensor t : String) (rank r : ℕ) (free : FreeDict)
    → member t (freed r q (add_free request tensor rank free))
      ≡ (member t (freed r q free) || ((request == q) && (tensor == t) && (rank == r)))
unfolding member
member-add_free request q tensor t rank r free = ground (
  arith,
  freed-add_free request q tensor rank r free,
  member-append t (freed rank request free) (tensor ∷ []),
  nat_eq.beq_iff rank r,
  string_eq.beq_iff request q,
)

member-add_free_on :
    (request q tensor t : String) (ranks : List ℕ) (r : ℕ) (free : FreeDict)
    → member t (freed r q (add_free_on request tensor ranks free))
      ≡ (member t (freed r q free) || ((request == q) && (tensor == t) && member r ranks))
unfolding add_free_on member
member-add_free_on request q tensor t [] r free = ground arith
member-add_free_on request q tensor t (rank ∷ ranks) r free = ground (
  arith,
  member-add_free_on request q tensor t ranks r (add_free request tensor rank free),
  member-add_free request q tensor t rank r free,
)

-- The worker holds the tensor.
abbrev pub holds : ℕ → String → Dict String (Dict ℕ TensorInfo) → Bool
holds rank tensor tensors = elim (lookup tensor tensors) [
  | none ↦ false
  | some copies ↦ member rank (keys copies)
]

add_free_all_total :
    (request : String) (tensors : Dict String (Dict ℕ TensorInfo)) (unused : List String)
    (free : FreeDict)
    → ((t : String) → member t unused ≡ true → contains t tensors ≡ true)
    → (free' : FreeDict) × (add_free_all request tensors unused free ≡ ok free')
      × ((r : ℕ) (q t : String)
          → member t (freed r q free') ≡ (
              member t (freed r q free)
              || ((request == q) && member t unused && holds r t tensors)))
unfolding add_free_all member
add_free_all_total request tensors [] free known = (free, refl, λ r q t. ground arith)
add_free_all_total request tensors (tensor ∷ unused) free known =
    elim (Option-cases (lookup tensor tensors)) [
      | inl missing ↦ absurd (ground (arith, known tensor, string_eq.beq_iff tensor tensor))
      | inr (copies, found) ↦
          let free1 = add_free_on request tensor (keys copies) free in
          let (free', e, listed) =
            add_free_all_total request tensors unused free1 (λ t h. known t (ground arith)) in
          (
            free',
            rw found e,
            λ r q t. ground (
              arith,
              listed r q t,
              member-add_free_on request q tensor t (keys copies) r free,
              string_eq.beq_iff tensor t,
              found,
            ),
          )
    ]

-- The counts of a request after some of its nodes completed, in order.
unfoldable pub counts_after : List WorkflowNode → Dict String ℤ → Dict String ℤ
counts_after [] counts = counts
counts_after (n ∷ nodes) counts = counts_after nodes (drop_inputs n.inputs counts).0

counts_after-IsRemaining :
    (all left : String → ℕ) (nodes : List WorkflowNode) (counts : Dict String ℤ)
    → ((t : String) → left t + uses_in t nodes ≤ all t)
    → IsRemaining all (λ t. left t + uses_in t nodes) counts
    → IsRemaining all left (counts_after nodes counts)
unfolding counts_after uses_in
counts_after-IsRemaining all left [] counts bound r = λ t. ground (arith, r t)
counts_after-IsRemaining all left (n ∷ nodes) counts bound r =
    let d =
      drop_inputs-IsDropped all (λ t. left t + uses_in t nodes) n.inputs counts
        (λ t. omega (arith, bound t))
        (λ t.
          r t ∙ ap (λ (k : ℕ). if nat_beq (all t) 0 then none else some (pos k)) (omega arith)) in
    counts_after-IsRemaining all left nodes _ (λ t. omega (arith, bound t)) d.remaining

pub update_free_tensor_dict-frees :
    (request : String) (nodes done rest : List WorkflowNode) (n : WorkflowNode) (s : Tensors)
    → Permᴰ nodes (done ++ n ∷ rest)
    → s.tensor_reference_count ≡ counts_after done (start_counts nodes)
    → ((t : String) → ltb 0 (uses t n.inputs) ≡ true → contains t s.tensor_map ≡ true)
    → (s' : Tensors) × (update_free_tensor_dict request n s ≡ ok s')
      × (s'.tensor_reference_count ≡ (drop_inputs n.inputs s.tensor_reference_count).0)
      × ((rank : ℕ) (q t : String)
          → member t (freed rank q s'.free_tensor_dict) ≡ (
              member t (freed rank q s.free_tensor_dict)
              || ((request == q)
                  && (ltb 0 (uses t n.inputs) && nat_beq (uses_in t rest) 0)
                  && holds rank t s.tensor_map)))
unfolding update_free_tensor_dict uses_in
update_free_tensor_dict-frees request nodes done rest n s p counted known =
    let all = λ (t : String). uses_in t nodes in
    let total = λ (t : String). uses_in-perm t p ∙ uses_in-append t done (n ∷ rest) in
    let started = start_counts-IsRemaining nodes in
    let before : IsRemaining all (λ t. uses_in t rest + uses t n.inputs) s.tensor_reference_count =
      subst (IsRemaining all (λ t. uses_in t rest + uses t n.inputs)) (sym counted) (
        counts_after-IsRemaining all (λ t. uses_in t rest + uses t n.inputs) done
          (start_counts nodes) (λ t. omega (arith, total t))
          (λ t. ground (arith, started t, total t))) in
    let d =
      drop_inputs-IsDropped all (λ t. uses_in t rest) n.inputs s.tensor_reference_count
        (λ t. omega (arith, total t)) before in
    let (free', e, listed) =
      add_free_all_total request s.tensor_map (drop_inputs n.inputs s.tensor_reference_count).1
        s.free_tensor_dict (λ t h. known t (ground (arith, d.unused t))) in
    (
      record s {
        tensor_reference_count = (drop_inputs n.inputs s.tensor_reference_count).0;
        free_tensor_dict = free';
      },
      rw e refl,
      refl,
      λ rank q t. ground (arith, listed rank q t, d.unused t),
    )
