-- ===== src/Coordinator/Tensors/Counted.antt =====
-- The reference counts of a request's tensors (coordinator.py, dependency.py) are the inputs that
-- still read them.
use mathlib.Core.List.{Permᴰ}
use diflow.Prelude.{
  ℕ, zero, suc, ◌+◌, ◌≤◌, ◌≡◌, refl, ◌∙◌, ap, arith, Bool, true, false, ◌&&◌, Option, none, some,
  List, [], ◌∷◌, ◌++◌, map, String, ◌==◌, string_eq, nat_beq, ltb, if◌then◌else◌, Dict, lookup,
  insert, lookup-insert, member, Distinct, Bool-cases, inl, inr,
}
use diflow.Json.{ℤ, pos}
use diflow.Workflow.{NodeIo, WorkflowNode}
use diflow.Dependency.{from_request, count_inputs, count_nodes, build_tensor_reference_count}
use diflow.Coordinator.Tensors.{decrement, is_zero, start_counts, add_unused, drop_inputs}

-- How many inputs read the tensor.
unfoldable pub uses : String → Dict String NodeIo → ℕ
uses tensor [] = 0
uses tensor ((key, io) ∷ inputs) =
    if from_request io
    then uses tensor inputs
    else if io.name == tensor
    then suc (uses tensor inputs)
    else uses tensor inputs

unfoldable pub uses_in : String → List WorkflowNode → ℕ
unfolding uses
uses_in tensor [] = 0
uses_in tensor (n ∷ nodes) = uses tensor n.inputs + uses_in tensor nodes

pub uses_in-append :
    (tensor : String) (xs ys : List WorkflowNode)
    → uses_in tensor (xs ++ ys) ≡ uses_in tensor xs + uses_in tensor ys
unfolding uses_in
uses_in-append tensor [] ys = omega arith
uses_in-append tensor (n ∷ xs) ys = omega (arith, uses_in-append tensor xs ys)

pub uses_in-perm :
    (tensor : String) {xs ys : List WorkflowNode}
    → Permᴰ xs ys
    → uses_in tensor xs ≡ uses_in tensor ys
unfolding uses_in
uses_in-perm tensor Permᴰ.nil = refl
uses_in-perm tensor (Permᴰ.cons e p) =
    omega (arith, ap (λ (n : WorkflowNode). uses tensor n.inputs) e, uses_in-perm tensor p)
uses_in-perm tensor (Permᴰ.swap e f) = omega (
  arith,
  ap (λ (n : WorkflowNode). uses tensor n.inputs) e,
  ap (λ (n : WorkflowNode). uses tensor n.inputs) f,
)
uses_in-perm tensor (Permᴰ.trans p q) = uses_in-perm tensor p ∙ uses_in-perm tensor q

abbrev if_positive : ℕ → Option ℕ
if_positive n = if nat_beq n 0 then none else some n

-- The table holds the positive values of `f`.
abbrev IsCount : (String → ℕ) → Dict String ℕ → Type 0
IsCount f counts = (t : String) → lookup t counts ≡ if_positive (f t)

abbrev one_if : Bool → ℕ
one_if true = 1
one_if false = 0

IsCount-one :
    (name : String) (f : String → ℕ) (counts : Dict String ℕ)
    → IsCount f counts
    → IsCount
        (λ t. f t + one_if (name == t))
        (insert name (elim (lookup name counts) [ none ↦ 1 | some n ↦ n + 1 ]) counts)
IsCount-one name f counts c t = ground (
  arith,
  c t,
  c name,
  lookup-insert name t (elim (lookup name counts) [ none ↦ 1 | some n ↦ n + 1 ]) counts,
  string_eq.beq_iff name t,
)

count_inputs-IsCount :
    (inputs : Dict String NodeIo) (f : String → ℕ) (counts : Dict String ℕ)
    → IsCount f counts
    → IsCount (λ t. f t + uses t inputs) (count_inputs inputs counts)
unfolding count_inputs uses
count_inputs-IsCount [] f counts c t = ground (arith, c t)
count_inputs-IsCount ((key, io) ∷ inputs) f counts c t = elim (Bool-cases (from_request io)) [
  | inl given ↦ rw given (count_inputs-IsCount inputs f counts c t)
  | inr made ↦ rw made (
      count_inputs-IsCount inputs (λ t. f t + one_if (io.name == t)) _
        (IsCount-one io.name f counts c) t
      ∙ ap if_positive (ground arith))
]

count_nodes-IsCount :
    (nodes : List WorkflowNode) (f : String → ℕ) (counts : Dict String ℕ)
    → IsCount f counts
    → IsCount (λ t. f t + uses_in t nodes) (count_nodes nodes counts)
unfolding count_nodes uses_in
count_nodes-IsCount [] f counts c t = ground (arith, c t)
count_nodes-IsCount (n ∷ nodes) f counts c t =
    count_nodes-IsCount nodes (λ t. f t + uses t n.inputs) _
      (count_inputs-IsCount n.inputs f counts c) t
    ∙ ap if_positive (ground arith)

-- Of the tensors that `all` says are read, `left` reads are still to come.
abbrev pub IsRemaining : (String → ℕ) → (String → ℕ) → Dict String ℤ → Type 0
IsRemaining all left counts =
    (t : String) → lookup t counts ≡ (if nat_beq (all t) 0 then none else some (pos (left t)))

lookup-map_pos :
    (t : String) (counts : Dict String ℕ)
    → lookup t (map (λ (e : String × ℕ). (e.0, pos e.1)) counts)
      ≡ elim (lookup t counts) [ none ↦ none | some n ↦ some (pos n) ]
unfolding lookup
lookup-map_pos t [] = refl
lookup-map_pos t ((k, n) ∷ counts) = ground (arith, lookup-map_pos t counts)

pub start_counts-IsRemaining :
    (nodes : List WorkflowNode)
    → IsRemaining (λ t. uses_in t nodes) (λ t. uses_in t nodes) (start_counts nodes)
unfolding start_counts lookup
start_counts-IsRemaining nodes t = ground (
  arith,
  lookup-map_pos t (build_tensor_reference_count nodes),
  count_nodes-IsCount nodes (λ (x : String). 0) [] (λ x. refl) t,
)

-- Inputs that read each tensor as often as `reads` says are counted down; a tensor is unused from
-- then on exactly if they read it and no read is left.
pub record IsDropped (all left reads : String → ℕ) (result : Dict String ℤ × List String)
    : Type 0 where
  pub remaining : IsRemaining all left result.0
  pub unused : (t : String) → member t result.1 ≡ (ltb 0 (reads t) && nat_beq (left t) 0)
  pub once : Distinct result.1

IsDropped-reads :
    (all left reads reads' : String → ℕ) (result : Dict String ℤ × List String)
    → ((t : String) → reads t ≡ reads' t)
    → IsDropped all left reads result
    → IsDropped all left reads' result
IsDropped-reads all left reads reads' result same d = record {
  remaining = d.remaining;
  unused = λ t. ground (arith, d.unused t, same t);
  once = d.once;
}

IsDropped-add :
    (all left reads : String → ℕ) (name : String) (k : ℕ) (counts : Dict String ℤ)
    (unused : List String)
    → k ≡ left name + reads name
    → IsDropped all left reads (counts, unused)
    → IsDropped all left
        (λ t. reads t + one_if (name == t))
        (counts, add_unused (is_zero (pos k)) name unused)
unfolding member
IsDropped-add all left reads name zero counts unused e d = record {
  remaining = d.remaining;
  unused = λ t. ground (arith, d.unused t, d.unused name, string_eq.beq_iff name t);
  once = (ground (arith, d.unused name), d.once);
}
IsDropped-add all left reads name (suc k) counts unused e d = record {
  remaining = d.remaining;
  unused = λ t. ground (arith, d.unused t, d.unused name, string_eq.beq_iff name t);
  once = d.once;
}

-- The count of a tensor that `left` and one more input read.
drop_one :
    (name : String) (all left : String → ℕ) (counts : Dict String ℤ)
    → nat_beq (all name) 0 ≡ false
    → IsRemaining all (λ t. left t + one_if (name == t)) counts
    → IsRemaining all left (insert name (decrement (pos (suc (left name)))) counts)
drop_one name all left counts used r t = ground (
  arith,
  r t,
  lookup-insert name t (decrement (pos (suc (left name)))) counts,
  string_eq.beq_iff name t,
)

drop_made :
    (io : NodeIo) (key : String) (inputs : Dict String NodeIo) (counts : Dict String ℤ) (k : ℕ)
    → from_request io ≡ false
    → lookup io.name counts ≡ some (pos (suc k))
    → drop_inputs ((key, io) ∷ inputs) counts ≡ (
      (drop_inputs inputs (insert io.name (pos k) counts)).0,
      add_unused (is_zero (pos k)) io.name (drop_inputs inputs (insert io.name (pos k) counts)).1,
    )
unfolding drop_inputs
drop_made io key inputs counts k made found = rw (made, found) refl

drop_given :
    (io : NodeIo) (key : String) (inputs : Dict String NodeIo) (counts : Dict String ℤ)
    → from_request io ≡ true
    → drop_inputs ((key, io) ∷ inputs) counts ≡ drop_inputs inputs counts
unfolding drop_inputs
drop_given io key inputs counts given = rw given refl

pub drop_inputs-IsDropped :
    (all left : String → ℕ) (inputs : Dict String NodeIo) (counts : Dict String ℤ)
    → ((t : String) → left t + uses t inputs ≤ all t)
    → IsRemaining all (λ t. left t + uses t inputs) counts
    → IsDropped all left (λ t. uses t inputs) (drop_inputs inputs counts)
unfolding uses
drop_inputs-IsDropped all left [] counts bound r =
    unfold drop_inputs member in
    record { remaining = λ t. ground (arith, r t); unused = λ t. ground arith; once = tt }
drop_inputs-IsDropped all left ((key, io) ∷ inputs) counts bound r =
    elim (Bool-cases (from_request io)) [
      | inl given ↦ rw (drop_given io key inputs counts given) (
          IsDropped-reads all left (λ t. uses t inputs) _ _ (λ t. ground arith)
            (drop_inputs-IsDropped all left inputs counts (λ t. ground (arith, bound t))
              (λ t. ground (arith, r t))))
      | inr made ↦
          let k = left io.name + uses io.name inputs in
          let read : nat_beq (all io.name) 0 ≡ false =
            ground (arith, bound io.name, string_eq.beq_iff io.name io.name) in
          let found : lookup io.name counts ≡ some (pos (suc k)) =
            ground (arith, r io.name, bound io.name, string_eq.beq_iff io.name io.name) in
          rw (drop_made io key inputs counts k made found) (
            IsDropped-reads all left _ _ _ (λ t. ground arith)
              (IsDropped-add all left (λ t. uses t inputs) io.name k _ _ refl
                (drop_inputs-IsDropped all left inputs (insert io.name (pos k) counts)
                  (λ t. ground (arith, bound t))
                  (drop_one io.name all (λ t. left t + uses t inputs) counts read
                    (λ t. ground (arith, r t))))))
    ]
