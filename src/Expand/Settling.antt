-- ===== src/Expand/Settling.antt =====
-- The inner loop of `_check_acyclic` (diflow/interface/workflow_expand.py).
use mathlib.Core.Path.{subst}
use diflow.Prelude.{
  beq_refl, ◌≡◌, refl, sym, ap, ◌∙◌, inl, inr, true, false, List, [], ◌∷◌, String, arith, ◌==◌,
  string_eq, keys, lookup, insert, member, Distinct, IsSubset, ok, or_raise, key_error, >>=-eq-ok,
  or_raise-eq-ok, ok-injective, Bool-cases,
}
use diflow.Dependency.{Sets, get_set}
use diflow.Dependency.Edges.{get_set-insert}
use diflow.Expand.Checks.{grown, settle, discard}
use diflow.Expand.Ordered.{or_no_set}

-- What holds while the dependents `ds` of the settled node `name` are gone through.
pub record IsSettling (P : Sets) (name : String) (settled ds ready : List String) (remaining : Sets)
    : Type 0 where
  pub free : (n : String) → member n ready ≡ true → IsSubset (get_set n P) (name ∷ settled)
  pub once : Distinct ready
  pub fresh : (n : String) → member n ready ≡ true → member n (name ∷ settled) ≡ false
  pub apart : (n : String) → member n ready ≡ true → member n ds ≡ false
  pub known : IsSubset ready (keys P)
  pub kept :
      (n x : String)
      → member x (get_set n P) ≡ true
      → member x (name ∷ settled) ≡ false
      → member x (get_set n remaining) ≡ true

pub member-discard :
    (name x : String) (xs : List String)
    → member x xs ≡ true
    → (name == x) ≡ false
    → member x (discard name xs) ≡ true
unfolding member
member-discard name x [] h other = cc
member-discard name x (y ∷ ys) h other = ground (
  arith,
  string_eq.beq_iff y name,
  string_eq.beq_iff y x,
  string_eq.beq_iff name x,
  member-discard name x ys,
)

pub settle-kept :
    (P : Sets) (name : String) (settled : List String) (d : String) (ds ready deps : List String)
    (remaining : Sets)
    → IsSettling P name settled (d ∷ ds) ready remaining
    → get_set d remaining ≡ deps
    → (n y : String) → member y (get_set n P) ≡ true
    → member y (name ∷ settled) ≡ false
    → member y (get_set n (insert d (discard name deps) remaining)) ≡ true
unfolding member
settle-kept P name settled d ds ready deps remaining s entry n y m unready =
    let old = s.kept n y m unready in
    rw (get_set-insert d n (discard name deps) remaining) (elim (Bool-cases (d == n)) [
      | inl here ↦
          let named : n ≡ d = sym ((string_eq.beq_iff d n).0 here) in
          let stays =
            subst (λ (xs : List String). member y xs ≡ true)
              (ap (λ k. get_set k remaining) named ∙ entry) old in
          rw here (member-discard name y deps stays (ground arith))
      | inr there ↦ rw there old
    ])

-- Whatever is or becomes ready has the property, if the new node and the old ones have it.
pub grown-all {ℓ} :
    (Q : String → Type ℓ) (d : String) (ready : List String)
    → Q d
    → ((n : String) → member n ready ≡ true → Q n)
    → (n : String) → member n (d ∷ ready) ≡ true
    → Q n
unfolding member
grown-all Q d ready new old n m = elim (Bool-cases (d == n)) [
  | inl here ↦ subst Q ((string_eq.beq_iff d n).0 here) new
  | inr there ↦ old n (ground arith)
]

pub IsSettling-step :
    (P : Sets) (name : String) (settled : List String) (d : String)
    (ds ready deps left : List String) (remaining : Sets)
    → IsSettling P name settled (d ∷ ds) ready remaining
    → member d ds ≡ false
    → member d (name ∷ settled) ≡ false
    → member d (keys P) ≡ true
    → get_set d remaining ≡ deps
    → discard name deps ≡ left
    → IsSettling P name settled ds (grown d left ready) (insert d left remaining)
unfolding member
IsSettling-step P name settled d ds ready deps (x ∷ xs) remaining s new unsettled listed entry
      shape =
    record {
      free = s.free;
      once = s.once;
      fresh = s.fresh;
      apart = λ n m. ground (arith, s.apart n m);
      known = s.known;
      kept = rw (← shape) (settle-kept P name settled d ds ready deps remaining s entry);
    }
IsSettling-step P name settled d ds ready deps [] remaining s new unsettled listed entry shape =
    let stays = settle-kept P name settled d ds ready deps remaining s entry in
    let emptied : (y : String) → member y (get_set d P) ≡ true → member y (name ∷ settled) ≡ true =
      λ y h. elim (Bool-cases (member y (name ∷ settled))) [
        | inl done ↦ done
        | inr undone ↦
            let now : get_set d (insert d (discard name deps) remaining) ≡ [] =
              get_set-insert d d (discard name deps) remaining ∙ rw (beq_refl d, shape) refl in
            let left = subst (λ (xs : List String). member y xs ≡ true) now (stays d y h undone) in
            cc
      ] in
    record {
      free = grown-all (λ n. IsSubset (get_set n P) (name ∷ settled)) d ready emptied s.free;
      once = (
        elim (Bool-cases (member d ready)) [
          | inl old ↦ ground (arith, s.apart d old, string_eq.beq_iff d d)
          | inr fresh ↦ fresh
        ],
        s.once,
      );
      fresh = grown-all (λ n. member n (name ∷ settled) ≡ false) d ready unsettled s.fresh;
      apart = grown-all (λ n. member n ds ≡ false) d ready new (λ n m. ground (arith, s.apart n m));
      known = grown-all (λ n. member n (keys P) ≡ true) d ready listed s.known;
      kept = rw (← shape) stays;
    }

-- The loop over the dependents: each of them waits for `name`, and none was settled.
pub settle-IsSettling :
    (P : Sets) (name : String) (settled ds ready : List String) (remaining : Sets)
    (r : List String × Sets)
    → IsSettling P name settled ds ready remaining
    → Distinct ds
    → ((d : String)
        → member d ds ≡ true
        → (member d (name ∷ settled) ≡ false) × (member d (keys P) ≡ true))
    → settle name ds ready remaining ≡ ok r
    → IsSettling P name settled [] r.0 r.1
unfolding settle member
settle-IsSettling P name settled [] ready remaining r s once waiting e = rw (← ok-injective e) s
settle-IsSettling P name settled (d ∷ ds) ready remaining r s once waiting e =
    let (deps, found, e') = >>=-eq-ok (or_raise key_error (lookup d remaining)) _ e in
    let entry : get_set d remaining ≡ deps =
      ap or_no_set (or_raise-eq-ok key_error (lookup d remaining) found) in
    let (unsettled, listed) = waiting d (ground (arith, string_eq.beq_iff d d)) in
    let left = discard name deps in
    settle-IsSettling P name settled ds (grown d left ready) (insert d left remaining) r
      (IsSettling-step P name settled d ds ready deps left remaining s once.0 unsettled listed entry
        refl)
      once.1 (λ n m. waiting n (ground arith)) e'
