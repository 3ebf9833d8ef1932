-- ===== src/Expand/Pending.antt =====
-- The inner loop of `_check_acyclic` loses no node (diflow/interface/workflow_expand.py).
use mathlib.Core.Path.{subst}
use diflow.Prelude.{
  ◌≡◌, refl, sym, ap, inl, inr, true, false, not, ◌||◌, List, [], ◌∷◌, String, arith, ◌==◌,
  string_eq, keys, lookup, insert, contains, member, IsSubset, ok, Bool-cases, lookup-insert,
  beq_refl,
}
use diflow.Dependency.{Sets, get_set}
use diflow.Dependency.Edges.{some_of_contains, get_set-insert}
use diflow.Expand.Checks.{grown, settle, discard}
use diflow.Expand.Ordered.{or_no_set}

-- What the inner loop keeps, beyond `IsSettling`: the sets that remain hold nothing that was settled,
-- and a node that waits for nothing more is among the ready, the settled or the ones still to visit.
pub record IsPending (P : Sets) (name : String) (settled ds ready : List String) (remaining : Sets)
    : Type 0 where
  pub left :
      (n x : String)
      → member x (get_set n remaining) ≡ true
      → (member x (get_set n P) ≡ true)
        × (member x settled ≡ false)
        × ((not (name == x) || member n ds) ≡ true)
  pub found :
      (n : String)
      → member n (keys P) ≡ true
      → IsSubset (get_set n P) (name ∷ settled)
      → (member n ready || (member n (name ∷ settled) || member n ds)) ≡ true
  pub entries : (n : String) → member n (keys P) ≡ true → contains n remaining ≡ true

-- The same between the rounds.
pub record IsWaiting (P : Sets) (settled ready : List String) (remaining : Sets) : Type 0 where
  pub left :
      (n x : String)
      → member x (get_set n remaining) ≡ true
      → (member x (get_set n P) ≡ true) × (member x settled ≡ false)
  pub found :
      (n : String)
      → member n (keys P) ≡ true
      → IsSubset (get_set n P) settled
      → (member n ready || member n settled) ≡ true
  pub entries : (n : String) → member n (keys P) ≡ true → contains n remaining ≡ true

pub member-discard_inv :
    (name x : String) (xs : List String)
    → member x (discard name xs) ≡ true
    → (member x xs ≡ true) × ((name == x) ≡ false)
unfolding member
member-discard_inv name x [] h = cc
member-discard_inv name x (y ∷ ys) h = ground (
  arith,
  string_eq.beq_iff y name,
  string_eq.beq_iff y x,
  string_eq.beq_iff name x,
  member-discard_inv name x ys,
)

pub pending-left :
    (P : Sets) (name : String) (settled : List String) (d : String) (ds ready deps : List String)
    (remaining : Sets)
    → IsPending P name settled (d ∷ ds) ready remaining
    → get_set d remaining ≡ deps
    → (n x : String) → member x (get_set n (insert d (discard name deps) remaining)) ≡ true
    → (member x (get_set n P) ≡ true)
      × (member x settled ≡ false)
      × ((not (name == x) || member n ds) ≡ true)
unfolding member
pending-left P name settled d ds ready deps remaining s entry n x m =
    let m' =
      subst (λ (xs : List String). member x xs ≡ true)
        (get_set-insert d n (discard name deps) remaining) m in
    elim (Bool-cases (d == n)) [
      | inl here ↦
          let named : d ≡ n = (string_eq.beq_iff d n).0 here in
          let (old, other) = member-discard_inv name x deps (rw here at m') in
          let (among, unsettled, _) = s.left d x (rw entry old) in
          (subst (λ k. member x (get_set k P) ≡ true) named among, unsettled, ground arith)
      | inr there ↦
          let (among, unsettled, visit) = s.left n x (rw there at m') in
          (among, unsettled, ground arith)
    ]

pub IsPending-step :
    (P : Sets) (name : String) (settled : List String) (d : String)
    (ds ready deps left : List String) (remaining : Sets)
    → IsPending P name settled (d ∷ ds) ready remaining
    → get_set d remaining ≡ deps
    → discard name deps ≡ left
    → IsPending P name settled ds (grown d left ready) (insert d left remaining)
unfolding member
IsPending-step P name settled d ds ready deps left remaining s entry shape = record {
  left = rw (← shape) (pending-left P name settled d ds ready deps remaining s entry);
  found = λ n key all. found_at left shape n key all;
  entries = λ n key. ground (arith, lookup-insert d n left remaining, s.entries n key);
}
  where
    found_at :
        (rest : List String)
        → discard name deps ≡ rest
        → (n : String) → member n (keys P) ≡ true
        → IsSubset (get_set n P) (name ∷ settled)
        → (member n (grown d rest ready) || (member n (name ∷ settled) || member n ds)) ≡ true
    found_at [] e n key all = let old = s.found n key all in ground arith
    found_at (x ∷ xs) e n key all =
        let old = s.found n key all in
        elim (Bool-cases (d == n)) [
          | inr other ↦ ground arith
          | inl same ↦
              let named : n ≡ d = sym ((string_eq.beq_iff d n).0 same) in
              let first : member x (discard name deps) ≡ true = rw (e, beq_refl x) refl in
              let (listed, distinct) = member-discard_inv name x deps first in
              let (among, unsettled, _) = s.left d x (rw entry listed) in
              let covered = all x (subst (λ k. member x (get_set k P) ≡ true) (sym named) among) in
              ground arith
        ]

pub settle_total :
    (P : Sets) (name : String) (settled ds ready : List String) (remaining : Sets)
    → IsPending P name settled ds ready remaining
    → IsSubset ds (keys P)
    → (r : List String × Sets) × (settle name ds ready remaining ≡ ok r)
      × IsPending P name settled [] r.0 r.1
unfolding settle member
settle_total P name settled [] ready remaining s listed = ((ready, remaining), refl, s)
settle_total P name settled (d ∷ ds) ready remaining s listed =
    let here : contains d remaining ≡ true =
      s.entries d (listed d (ground (arith, string_eq.beq_iff d d))) in
    let (deps, present) = some_of_contains (lookup d remaining) here in
    let left = discard name deps in
    let s' =
      IsPending-step P name settled d ds ready deps left remaining s (ap or_no_set present) refl in
    let (r, e, t) =
      settle_total P name settled ds (grown d left ready) (insert d left remaining) s'
        (λ n m. listed n (ground arith)) in
    (r, rw (present, settle) e, t)

pub IsPending-start :
    (P dependents : Sets) (name : String) (settled ready ds : List String) (remaining : Sets)
    → ((n : String) → member name (get_set n P) ≡ true → member n ds ≡ true)
    → IsWaiting P settled (name ∷ ready) remaining
    → IsPending P name settled ds ready remaining
unfolding member
IsPending-start P dependents name settled ready ds remaining visits s = record {
  left = λ n x m.
      let (among, unsettled) = s.left n x m in
      (
        among,
        unsettled,
        elim (Bool-cases (name == x)) [
          | inr other ↦ ground arith
          | inl same ↦
              let named : x ≡ name = sym ((string_eq.beq_iff name x).0 same) in
              let visit = visits n (subst (λ y. member y (get_set n P) ≡ true) named among) in
              ground arith
        ],
      );
  found = λ n key all. elim (Bool-cases (member name (get_set n P))) [
    | inl waits ↦ let visit = visits n waits in ground arith
    | inr free ↦
        let old = s.found n key λ x m. elim (Bool-cases (name == x)) [
          | inr other ↦ let covered = all x m in ground arith
          | inl same ↦
              let named : x ≡ name = sym ((string_eq.beq_iff name x).0 same) in
              let waits = subst (λ y. member y (get_set n P) ≡ true) named m in cc
        ] in
        ground arith
  ];
  entries = s.entries;
}

pub IsWaiting-round :
    (P : Sets) (name : String) (settled ready : List String) (remaining : Sets)
    → IsPending P name settled [] ready remaining
    → IsWaiting P (name ∷ settled) ready remaining
unfolding member
IsWaiting-round P name settled ready remaining s = record {
  left = λ n x m. let (among, unsettled, visit) = s.left n x m in (among, ground arith);
  found = λ n key all. let old = s.found n key all in ground arith;
  entries = s.entries;
}
