-- ===== src/Expand/Sorting.antt =====
-- The outer loop of `_check_acyclic` (diflow/interface/workflow_expand.py).
use mathlib.Core.Path.{subst}
use diflow.Prelude.{
  ℕ, zero, suc, ◌≡◌, sym, ap, inl, inr, true, false, List, [], ◌∷◌, String, arith, ◌==◌, string_eq,
  keys, lookup, member, Distinct, IsSubset, ok, or_raise, key_error, >>=-eq-ok, or_raise-eq-ok,
  ok-injective, Bool-cases,
}
use diflow.Dependency.{Sets, get_set}
use diflow.Expand.Checks.{settle, settle_all}
use diflow.Expand.Ordered.{or_no_set, IsOrdered, ordered-IsSubset}
use diflow.Expand.Settling.{IsSettling, settle-IsSettling, grown-all}

-- What holds between the rounds of the loop.
pub record IsSorting (P : Sets) (settled ready : List String) (remaining : Sets) : Type 0 where
  pub free : (n : String) → member n ready ≡ true → IsSubset (get_set n P) settled
  pub once : Distinct ready
  pub fresh : (n : String) → member n ready ≡ true → member n settled ≡ false
  pub known : IsSubset ready (keys P)
  pub kept :
      (n x : String)
      → member x (get_set n P) ≡ true
      → member x settled ≡ false
      → member x (get_set n remaining) ≡ true
  pub ordered : IsOrdered P settled
  pub distinct : Distinct settled
  pub listed : IsSubset settled (keys P)

-- The state that a round leaves, for the loop.
pub IsSorting-round :
    (P : Sets) (name : String) (settled ready : List String) (remaining : Sets)
    (r : List String × Sets)
    → IsSorting P settled (name ∷ ready) remaining
    → IsSettling P name settled [] r.0 r.1
    → IsSorting P (name ∷ settled) r.0 r.1
unfolding member
IsSorting-round P name settled ready remaining r s t =
    let here : member name (name ∷ ready) ≡ true = ground (arith, string_eq.beq_iff name name) in
    record {
      free = t.free;
      once = t.once;
      fresh = t.fresh;
      known = t.known;
      kept = t.kept;
      ordered = (s.free name here, s.ordered);
      distinct = (s.fresh name here, s.distinct);
      listed = grown-all (λ n. member n (keys P) ≡ true) name settled (s.known name here) s.listed;
    }

-- The dependency map and its reversal, as the loop uses them.
abbrev pub IsReversed : Sets → Sets → Type 0
IsReversed P dependents =
    (x y : String) → member y (get_set x dependents) ≡ true → member x (get_set y P) ≡ true

pub key-listed :
    (P : Sets) (x y : String) → member x (get_set y P) ≡ true → member y (keys P) ≡ true
unfolding lookup member
key-listed [] x y h = cc
key-listed ((name, deps) ∷ P) x y h = ground (arith, key-listed P x y)

pub IsSettling-start :
    (P dependents : Sets) (name : String) (settled ready ds : List String) (remaining : Sets)
    → IsReversed P dependents
    → get_set name dependents ≡ ds
    → IsSorting P settled (name ∷ ready) remaining
    → IsSettling P name settled ds ready remaining
      × ((d : String)
          → member d ds ≡ true
          → (member d (name ∷ settled) ≡ false) × (member d (keys P) ≡ true))
unfolding member
IsSettling-start P dependents name settled ready ds remaining back entry s =
    let here : member name (name ∷ ready) ≡ true = ground (arith, string_eq.beq_iff name name) in
    let unsettled = s.fresh name here in
    let waits : (d : String) → member d ds ≡ true → member name (get_set d P) ≡ true =
      λ d m. back name d (subst (λ (xs : List String). member d xs ≡ true) (sym entry) m) in
    let later : (d : String) → member d ds ≡ true → member d (name ∷ settled) ≡ false = λ d m.
      elim (Bool-cases (member d (name ∷ settled))) [
        | inr undone ↦ undone
        | inl done ↦
            let before : member name settled ≡ true = elim (Bool-cases (name == d)) [
              | inl same ↦
                  let named : d ≡ name = sym ((string_eq.beq_iff name d).0 same) in
                  s.free name here name
                    (subst (λ n. member name (get_set n P) ≡ true) named (waits d m))
              | inr other ↦ ordered-IsSubset P settled d s.ordered (ground arith) name (waits d m)
            ] in
            cc
      ] in
    (
      record {
        free = λ n m x h. ground (arith, s.free n (ground arith) x h);
        once = s.once.1;
        fresh = λ n m. ground (arith, s.fresh n, string_eq.beq_iff name n, s.once.0);
        apart = λ n m. elim (Bool-cases (member n ds)) [
          | inr separate ↦ separate
          | inl waiting ↦ let before = s.free n (ground arith) name (waits n waiting) in cc
        ];
        known = λ n m. s.known n (ground arith);
        kept = λ n x m undone. s.kept n x m (ground arith);
      },
      λ d m. (later d m, key-listed P name d (waits d m)),
    )

pub settle_all-IsSorting :
    (fuel : ℕ) (P dependents : Sets) (ready : List String) (remaining : Sets)
    (settled out : List String)
    → IsReversed P dependents
    → ((x : String) → Distinct (get_set x dependents))
    → IsSorting P settled ready remaining
    → settle_all fuel dependents ready remaining settled ≡ ok out
    → IsOrdered P out × Distinct out × IsSubset out (keys P)
unfolding settle_all
settle_all-IsSorting zero P dependents ready remaining settled out back once s e =
    rw (← ok-injective e) (s.ordered, s.distinct, s.listed)
settle_all-IsSorting (suc fuel) P dependents [] remaining settled out back once s e =
    rw (← ok-injective e) (s.ordered, s.distinct, s.listed)
settle_all-IsSorting (suc fuel) P dependents (name ∷ ready) remaining settled out back once s e =
    let (ds, found, e₁) = >>=-eq-ok (or_raise key_error (lookup name dependents)) _ e in
    let entry : get_set name dependents ≡ ds =
      ap or_no_set (or_raise-eq-ok key_error (lookup name dependents) found) in
    let (r, round, e₂) = >>=-eq-ok (settle name ds ready remaining) _ e₁ in
    let (begun, waiting) =
      IsSettling-start P dependents name settled ready ds remaining back entry s in
    let single = subst (λ (xs : List String). Distinct xs) entry (once name) in
    let t = settle-IsSettling P name settled ds ready remaining r begun single waiting round in
    settle_all-IsSorting fuel P dependents r.0 r.1 (name ∷ settled) out back once
      (IsSorting-round P name settled ready remaining r s t) e₂
