-- ===== src/Dependency/Edges.antt =====
-- Successors are the prerequisites reversed, and lazy prerequisites are prerequisites (dependency.py).
use diflow.Prelude.{
  ℕ, ◌<◌, ◌≡◌, refl, sym, Bool, true, false, ◌&&◌, ◌||◌, Option, none, some, List, [], ◌∷◌, map,
  arith, String, ◌==◌, string_eq, if◌then◌else◌, lookup, insert, contains, is_some, ok, or_raise,
  key_error, add_element, member, member-add, lookup-insert, >>=-eq-ok, ok-injective,
  or_raise-eq-ok, All, All-map,
}
use diflow.Dependency.{
  Sets, no_successors, get_set, add_successor, add_successors, build_successors,
}

-- `x` is a prerequisite of `y`.
abbrev pub has_edge : Sets → String → String → Bool
has_edge [] x y = false
has_edge ((name, deps) ∷ prerequisites) x y =
    (name == y && member x deps) || has_edge prerequisites x y

-- The edges lead to nodes of a higher rank: there is no cycle.
abbrev pub IsRanked : Sets → (String → ℕ) → Type 0
IsRanked sets rank = (x y : String) → member x (get_set y sets) ≡ true → rank x < rank y

pub get_set-insert :
    (k j : String) (s : List String) (d : Sets)
    → get_set j (insert k s d) ≡ (if k == j then s else get_set j d)
get_set-insert k j s d = ground (arith, lookup-insert k j s d)

pub some_of_contains :
    (o : Option (List String)) → is_some o ≡ true → (s : List String) × (o ≡ some s)
some_of_contains none h = cc
some_of_contains (some s) h = (s, refl)

add_successor-member :
    (name : String) (deps : List String) (d d' : Sets) (x y : String)
    → add_successor name deps d ≡ ok d'
    → member y (get_set x d') ≡ (member y (get_set x d) || (name == y && member x deps))
unfolding add_successor member
add_successor-member name [] d d' x y e = rw (ok-injective (sym e)) (ground arith)
add_successor-member name (dep ∷ deps) d d' x y e =
    let (old, found, e') = >>=-eq-ok (or_raise key_error (lookup dep d)) _ e in
    let known = or_raise-eq-ok key_error (lookup dep d) found in
    let ih = add_successor-member name deps (insert dep (add_element name old) d) d' x y e' in
    ground (
      arith,
      string_eq.beq_iff dep x,
      ih,
      get_set-insert dep x (add_element name old) d,
      member-add name y old,
      known,
    )

add_successors-member :
    (prerequisites d d' : Sets) (x y : String)
    → add_successors prerequisites d ≡ ok d'
    → member y (get_set x d') ≡ (member y (get_set x d) || has_edge prerequisites x y)
unfolding add_successors
add_successors-member [] d d' x y e = rw (ok-injective (sym e)) (ground arith)
add_successors-member ((name, deps) ∷ prerequisites) d d' x y e =
    let (d₁, first, e') = >>=-eq-ok (add_successor name deps d) _ e in
    ground (
      arith,
      add_successor-member name deps d d₁ x y first,
      add_successors-member prerequisites d₁ d' x y e',
    )

pub get_set_empty : (names : List String) (x : String) → get_set x (map no_successors names) ≡ []
unfolding lookup
get_set_empty [] x = refl
get_set_empty (name ∷ names) x = ground (arith, get_set_empty names x)

-- `y` is among the successors of `x` exactly if `x` is among the prerequisites of `y`.
pub build_successors-member :
    (names : List String) (prerequisites successors : Sets) (x y : String)
    → build_successors names prerequisites ≡ ok successors
    → member y (get_set x successors) ≡ has_edge prerequisites x y
unfolding build_successors member
build_successors-member names prerequisites successors x y e =
    rw (add_successors-member prerequisites _ successors x y e, get_set_empty names x)

-- The reversal raises no KeyError if every prerequisite is a node.
insert-contains :
    (k j : String) (s : List String) (d : Sets)
    → contains j d ≡ true
    → contains j (insert k s d) ≡ true
insert-contains k j s d h = ground (arith, lookup-insert k j s d)

add_successor_total :
    (name : String) (deps : List String) (d : Sets)
    → All (λ x. contains x d ≡ true) deps
    → (d' : Sets) × (add_successor name deps d ≡ ok d')
      × ((x : String) → contains x d ≡ true → contains x d' ≡ true)
unfolding add_successor
add_successor_total name [] d h = (d, refl, λ x k. k)
add_successor_total name (dep ∷ deps) d h =
    let (old, found) = some_of_contains (lookup dep d) h.0 in
    let d₁ = insert dep (add_element name old) d in
    let (d', e, keeps) =
      add_successor_total name deps d₁
        (All-map deps (λ x. insert-contains dep x (add_element name old) d) h.1) in
    (
      d',
      rw (found, add_successor) e,
      λ x k. keeps x (insert-contains dep x (add_element name old) d k),
    )

pub add_successors_total :
    (prerequisites d : Sets)
    → All (λ p. All (λ x. contains x d ≡ true) p.1) prerequisites
    → (d' : Sets) × (add_successors prerequisites d ≡ ok d')
      × ((x : String) → contains x d ≡ true → contains x d' ≡ true)
unfolding add_successors
add_successors_total [] d h = (d, refl, λ x k. k)
add_successors_total ((name, deps) ∷ prerequisites) d h =
    let (d₁, e₁, keeps) = add_successor_total name deps d h.0 in
    let (d', e, keeps') =
      add_successors_total prerequisites d₁
        (All-map prerequisites (λ p. All-map p.1 (λ x. keeps x)) h.1) in
    (d', rw (e₁, add_successors) e, λ x k. keeps' x (keeps x k))
