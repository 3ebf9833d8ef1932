-- ===== src/Expand/Ordered.antt =====
-- Dependency maps as sets, and orders of nodes that respect them (diflow/interface/workflow_expand.py).
use mathlib.Core.Path.{subst}
use diflow.Prelude.{
  ◌≡◌, refl, ap, inl, inr, true, Option, none, some, List, [], ◌∷◌, String, arith, ◌==◌, string_eq,
  lookup, insert, IsDict, member, add_element, Distinct, Distinct-add, IsSubset, ok, or_raise,
  key_error, >>=-eq-ok, or_raise-eq-ok, ok-injective, Bool-cases,
}
use diflow.Dependency.{Sets, get_set, add_successor, add_successors}
use diflow.Dependency.Edges.{has_edge, get_set-insert}

abbrev pub or_no_set : Option (List String) → List String
or_no_set none = []
or_no_set (some s) = s

-- The sets of dependents hold no element twice.
pub add_successor-Distinct :
    (name : String) (deps : List String) (d d' : Sets) (x : String)
    → ((y : String) → Distinct (get_set y d))
    → add_successor name deps d ≡ ok d'
    → Distinct (get_set x d')
unfolding add_successor
add_successor-Distinct name [] d d' x h e = rw (← ok-injective e) (h x)
add_successor-Distinct name (dep ∷ deps) d d' x h e =
    let (old, found, e') = >>=-eq-ok (or_raise key_error (lookup dep d)) _ e in
    let known = or_raise-eq-ok key_error (lookup dep d) found in
    let same : get_set dep d ≡ old = ap or_no_set known in
    let once : Distinct old = subst (λ (o : List String). Distinct o) same (h dep) in
    add_successor-Distinct name deps (insert dep (add_element name old) d) d' x
      (λ y. rw (get_set-insert dep y (add_element name old) d) (elim (Bool-cases (dep == y)) [
        | inl here ↦ rw here (Distinct-add name old once)
        | inr there ↦ rw there (h y)
      ]))
      e'

pub add_successors-Distinct :
    (prerequisites d d' : Sets) (x : String)
    → ((y : String) → Distinct (get_set y d))
    → add_successors prerequisites d ≡ ok d'
    → Distinct (get_set x d')
unfolding add_successors
add_successors-Distinct [] d d' x h e = rw (← ok-injective e) (h x)
add_successors-Distinct ((name, deps) ∷ prerequisites) d d' x h e =
    let (d₁, first, e') = >>=-eq-ok (add_successor name deps d) _ e in
    add_successors-Distinct prerequisites d₁ d' x
      (λ y. add_successor-Distinct name deps d d₁ y h first) e'

-- In a dictionary, an edge is what the entry of the node says.
pub has_edge-get_set :
    (P : Sets) (x y : String) → IsDict P → has_edge P x y ≡ member x (get_set y P)
unfolding lookup member
has_edge-get_set [] x y d = refl
has_edge-get_set ((name, deps) ∷ P) x y d =
    ground (arith, string_eq.beq_iff name y, has_edge-get_set P x y d.1, d.0)

-- Each node of the list stands before all that it waits for: the list is in reverse order.
abbrev pub IsOrdered : Sets → List String → Type 0
IsOrdered P [] = Unit
IsOrdered P (n ∷ older) = IsSubset (get_set n P) older × IsOrdered P older

pub ordered-IsSubset :
    (P : Sets) (s : List String) (n : String)
    → IsOrdered P s
    → member n s ≡ true
    → IsSubset (get_set n P) s
unfolding member
ordered-IsSubset P [] n o m x h = cc
ordered-IsSubset P (k ∷ older) n o m x h = elim (Bool-cases (k == n)) [
  | inl same ↦
      let named : k ≡ n = (string_eq.beq_iff k n).0 same in ground (arith, o.0 x (rw named h))
  | inr other ↦ ground (arith, ordered-IsSubset P older n o.1 (ground arith) x h)
]
