-- ===== src/Expand/Ranked.antt =====
-- What `_check_acyclic` makes sure of (diflow/interface/workflow_expand.py).
use mathlib.Core.Path.{subst}
use diflow.Prelude.{
  require-eq-ok, nat_beq_iff, ℕ, suc, ◌≤◌, ◌<◌, ◌≡◌, refl, sym, ◌∙◌, inl, inr, true, false, ◌||◌,
  none, List, [], ◌∷◌, map, String, arith, ◌==◌, string_eq, if◌then◌else◌, length, nat_beq, select,
  keys, lookup, IsDict, member, Distinct, IsSubset_of_length, ok, value_error, >>=-eq-ok,
  ok-injective, Bool-cases,
}
use diflow.Dependency.{Sets, get_set, no_successors, build_successors}
use diflow.Dependency.Edges.{get_set_empty, IsRanked, build_successors-member}
use diflow.Expand.Checks.{settle_all, check_acyclic, reversed, is_free}
use diflow.Expand.Ordered.{IsOrdered, add_successors-Distinct, has_edge-get_set}
use diflow.Expand.Sorting.{IsSorting, IsReversed, key-listed, settle_all-IsSorting}

pub member-reversed :
    (x : String) (xs out : List String) → member x (reversed xs out) ≡ (member x xs || member x out)
unfolding member
member-reversed x [] out = refl
member-reversed x (y ∷ xs) out = ground (arith, member-reversed x xs (y ∷ out))

Distinct-reversed :
    (xs out : List String)
    → Distinct xs
    → Distinct out
    → ((x : String) → member x xs ≡ true → member x out ≡ false)
    → Distinct (reversed xs out)
unfolding member
Distinct-reversed [] out d d' h = d'
Distinct-reversed (y ∷ xs) out d d' h =
    Distinct-reversed xs (y ∷ out) d.1 (h y (ground (arith, string_eq.beq_iff y y)), d')
      λ x m. ground (arith, h x, d.0, string_eq.beq_iff y x)

free_key-listed :
    (P : Sets) (n : String) → member n (keys (select is_free P)) ≡ true → member n (keys P) ≡ true
unfolding member
free_key-listed [] n m = cc
free_key-listed ((name, []) ∷ P) n m = ground (arith, free_key-listed P n)
free_key-listed ((name, x ∷ xs) ∷ P) n m = ground (arith, free_key-listed P n)

pub key_absent : (P : Sets) (n : String) → lookup n P ≡ none → member n (keys P) ≡ false
unfolding lookup member
key_absent [] n h = refl
key_absent ((name, deps) ∷ P) n h = ground (arith, key_absent P n)

free_key :
    (P : Sets) (n : String)
    → IsDict P
    → member n (keys (select is_free P)) ≡ true
    → get_set n P ≡ []
unfolding lookup member
free_key [] n d m = refl
free_key ((name, []) ∷ P) n d m = ground (arith, free_key P n d.1)
free_key ((name, x ∷ xs) ∷ P) n d m =
    ground
      (arith, string_eq.beq_iff name n, free_key P n d.1, free_key-listed P n, key_absent P n, d.0)

Distinct-free_keys : (P : Sets) → IsDict P → Distinct (keys (select is_free P))
Distinct-free_keys [] d = tt
Distinct-free_keys ((name, []) ∷ P) d =
    (ground (arith, key_absent P name d.0, free_key-listed P name), Distinct-free_keys P d.1)
Distinct-free_keys ((name, x ∷ xs) ∷ P) d = Distinct-free_keys P d.1

-- How many nodes stand from the node on to the end of the list.
abbrev pub rank_in : List String → String → ℕ
rank_in [] n = 0
rank_in (k ∷ older) n = if k == n then suc (length older) else rank_in older n

rank_in_le : (s : List String) (n : String) → rank_in s n ≤ length s
rank_in_le [] n = omega arith
rank_in_le (k ∷ older) n = ground (arith, rank_in_le older n)

rank_in_lt :
    (P : Sets) (s : List String) (x n : String)
    → IsOrdered P s
    → Distinct s
    → member n s ≡ true
    → member x (get_set n P) ≡ true
    → (rank_in s x < rank_in s n) × (member x s ≡ true)
unfolding member
rank_in_lt P [] x n o d m h = cc
rank_in_lt P (k ∷ older) x n o d m h = elim (Bool-cases (k == n)) [
  | inl same ↦
      let named : n ≡ k = sym ((string_eq.beq_iff k n).0 same) in
      let before : member x older ≡ true =
        o.0 x (subst (λ j. member x (get_set j P) ≡ true) named h) in
      ground (arith, string_eq.beq_iff k x, d.0, rank_in_le older x)
  | inr other ↦
      let (lower, before) = rank_in_lt P older x n o.1 d.1 (ground arith) h in
      ground (arith, string_eq.beq_iff k x, d.0)
]

pub start-IsSorting :
    (P : Sets) → IsDict P → IsSorting P [] (reversed (keys (select is_free P)) []) P
unfolding member
start-IsSorting P d =
    let among : (n : String)
        → member n (reversed (keys (select is_free P)) []) ≡ true
        → member n (keys (select is_free P)) ≡ true =
      λ n m. ground (arith, member-reversed n (keys (select is_free P)) []) in
    record {
      free = λ n m x h.
          let nothing =
            subst (λ (xs : List String). member x xs ≡ true) (free_key P n d (among n m)) h in
          cc;
      once =
          Distinct-reversed (keys (select is_free P)) [] (Distinct-free_keys P d) tt (λ x m. refl);
      fresh = λ n m. refl;
      known = λ n m. free_key-listed P n (among n m);
      kept = λ n x m undone. m;
      ordered = tt;
      distinct = tt;
      listed = λ n m. cc;
    }

pub length-keys : (P : Sets) → length (keys P) ≡ length P
length-keys [] = refl
length-keys (e ∷ P) = omega (arith, length-keys P)

-- If the check passes, the order in which it settled the nodes ranks them: every node has a higher
-- rank than the nodes it waits for, so that there is no cycle.
pub check_acyclic-IsRanked :
    (P : Sets) (settled : List String)
    → IsDict P
    → check_acyclic P ≡ ok settled
    → IsRanked P (rank_in settled)
unfolding check_acyclic build_successors member
check_acyclic-IsRanked P settled d e x y h =
    let (dependents, built, e₁) = >>=-eq-ok (build_successors (keys P) P) _ e in
    let ready = reversed (keys (select is_free P)) [] in
    let (out, sorted, e₂) = >>=-eq-ok (settle_all (length P) dependents ready P []) _ e₁ in
    let back : IsReversed P dependents = λ a b m.
      sym (has_edge-get_set P a b d)
      ∙ (sym (build_successors-member (keys P) P dependents a b built) ∙ m) in
    let once : (a : String) → Distinct (get_set a dependents) = λ a.
      add_successors-Distinct P (map no_successors (keys P)) dependents a
        (λ b. subst (λ (xs : List String). Distinct xs) (sym (get_set_empty (keys P) b)) tt)
        built in
    let (ordered, distinct, listed) =
      settle_all-IsSorting (length P) P dependents ready P [] out back once (start-IsSorting P d)
        sorted in
    let (all, e₃) = require-eq-ok (nat_beq (length out) (length P)) value_error e₂ in
    let counted : length out ≡ length P = (nat_beq_iff (length out) (length P)).0 all in
    let every_key =
      IsSubset_of_length out (keys P) distinct listed (omega (arith, length-keys P)) in
    rw (← ok-injective e₃)
      (rank_in_lt P out x y ordered distinct (every_key y (key-listed P x y h)) h).0
