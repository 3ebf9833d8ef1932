-- ===== src/Expand/Accepts.antt =====
-- `_check_acyclic` raises no error for a graph without a cycle (diflow/interface/workflow_expand.py).
use mathlib.Core.Path.{subst}
use mathlib.Core.List.{Memᴰ}
use diflow.Prelude.{
  ℕ, zero, suc, ◌+◌, ◌<◌, ◌≡◌, refl, sym, ap, ◌∙◌, ◌⊎◌, inl, inr, true, false, some, List, [], ◌∷◌,
  map, String, arith, ◌==◌, string_eq, length, select, keys, lookup, contains, IsDict, member,
  Distinct, IsSubset, length-IsSubset, ok, Bool-cases, beq_refl, All-of_mem, nat_beq_iff,
  Mem-member, Memᴰ-map,
}
use diflow.Dependency.{Sets, get_set, no_successors, build_successors}
use diflow.Dependency.Producers.{contains-no_successors}
use diflow.Dependency.Edges.{
  some_of_contains, get_set_empty, build_successors-member, IsRanked, add_successors_total,
}
use diflow.Expand.Checks.{settle, settle_all, check_acyclic, reversed, is_free}
use diflow.Expand.Ordered.{or_no_set, has_edge-get_set, add_successors-Distinct}
use diflow.Expand.Settling.{settle-IsSettling}
use diflow.Expand.Sorting.{IsSorting, IsSorting-round, IsSettling-start, settle_all-IsSorting}
use diflow.Expand.Ranked.{start-IsSorting, length-keys, member-reversed, key_absent}
use diflow.Expand.Pending.{IsWaiting, settle_total, IsPending-start, IsWaiting-round}

-- A node that is waited for is a node.
abbrev pub IsClosed : Sets → Type 0
IsClosed P = (x y : String) → member x (get_set y P) ≡ true → member x (keys P) ≡ true

-- The reversal of the map, as the loop uses it.
record IsDependents (P dependents : Sets) : Type 0 where
  edges : (x y : String) → member y (get_set x dependents) ≡ member x (get_set y P)
  once : (x : String) → Distinct (get_set x dependents)
  entries : (n : String) → member n (keys P) ≡ true → contains n dependents ≡ true

-- What the loop ends with: every node that waits for nothing unsettled is settled, or as many nodes
-- were settled as there were rounds.
abbrev IsEnded : Sets → ℕ → List String → List String → Type 0
IsEnded P fuel settled out =
    ((n : String) → member n (keys P) ≡ true → IsSubset (get_set n P) out → member n out ≡ true)
    ⊎ (length out ≡ fuel + length settled)

settle_all-suc :
    (fuel : ℕ) (dependents : Sets) (name : String) (ready ds settled out : List String)
    (remaining : Sets) (r : List String × Sets)
    → lookup name dependents ≡ some ds
    → settle name ds ready remaining ≡ ok r
    → settle_all fuel dependents r.0 r.1 (name ∷ settled) ≡ ok out
    → settle_all (suc fuel) dependents (name ∷ ready) remaining settled ≡ ok out
unfolding settle_all
settle_all-suc fuel dependents name ready ds settled out remaining r present round rest =
    rw (present, settle_all) (rw round rest)

settle_all_total :
    (fuel : ℕ) (P dependents : Sets) (ready : List String) (remaining : Sets)
    (settled : List String)
    → IsDependents P dependents
    → IsSorting P settled ready remaining
    → IsWaiting P settled ready remaining
    → (out : List String) × (settle_all fuel dependents ready remaining settled ≡ ok out)
      × IsEnded P fuel settled out
unfolding settle_all member
settle_all_total zero P dependents ready remaining settled back s w =
    (settled, refl, inr (omega arith))
settle_all_total (suc fuel) P dependents [] remaining settled back s w =
    (settled, refl, inl w.found)
settle_all_total (suc fuel) P dependents (name ∷ ready) remaining settled back s w =
    let listed : member name (keys P) ≡ true =
      s.known name (ground (arith, string_eq.beq_iff name name)) in
    let (ds, present) = some_of_contains (lookup name dependents) (back.entries name listed) in
    let entry : get_set name dependents ≡ ds = ap or_no_set present in
    let pending =
      IsPending-start P dependents name settled ready ds remaining
        (λ n m. subst (λ (xs : List String). member n xs ≡ true) entry (back.edges name n ∙ m)) w in
    let (begun, waiting) =
      IsSettling-start P dependents name settled ready ds remaining
        (λ x y m. sym (back.edges x y) ∙ m) entry s in
    let (r, e, ended) =
      settle_total P name settled ds ready remaining pending (λ d m. (waiting d m).1) in
    let single = subst (λ (xs : List String). Distinct xs) entry (back.once name) in
    let t = settle-IsSettling P name settled ds ready remaining r begun single waiting e in
    let (out, e', ending) =
      settle_all_total fuel P dependents r.0 r.1 (name ∷ settled) back
        (IsSorting-round P name settled ready remaining r s t)
        (IsWaiting-round P name settled r.0 r.1 ended) in
    (
      out,
      settle_all-suc fuel dependents name ready ds settled out remaining r present e e',
      elim ending [ inl all ↦ inl all | inr counted ↦ inr (omega arith) ],
    )

-- Up to a rank, every node was settled once the loop has ended.
all_settled :
    (P : Sets) (rank : String → ℕ) (out : List String)
    → IsRanked P rank
    → IsClosed P
    → ((n : String) → member n (keys P) ≡ true → IsSubset (get_set n P) out → member n out ≡ true)
    → (bound : ℕ) (n : String) → rank n < bound
    → member n (keys P) ≡ true
    → member n out ≡ true
all_settled P rank out ranked closed ended zero n below key = ground arith
all_settled P rank out ranked closed ended (suc bound) n below key = ended n key λ x m.
    let lower = ranked x n m in
    all_settled P rank out ranked closed ended bound x (omega arith) (closed x n m)

key_present : (P : Sets) (n : String) → member n (keys P) ≡ true → contains n P ≡ true
unfolding member lookup
key_present [] n key = cc
key_present ((name, deps) ∷ P) n key = ground (arith, key_present P n)

get_set-here :
    (name n : String) (deps : List String) (P : Sets)
    → (name == n) ≡ true
    → get_set n ((name, deps) ∷ P) ≡ deps
unfolding lookup
get_set-here name n deps P same = ground arith

get_set-other :
    (name n : String) (deps : List String) (P : Sets)
    → (name == n) ≡ false
    → get_set n ((name, deps) ∷ P) ≡ get_set n P
unfolding lookup
get_set-other name n deps P other = ground arith

IsSubset-other :
    (name n : String) (deps : List String) (P : Sets)
    → (name == n) ≡ false
    → IsSubset (get_set n ((name, deps) ∷ P)) []
    → IsSubset (get_set n P) []
IsSubset-other name n deps P other all =
    subst (λ (xs : List String). IsSubset xs []) (get_set-other name n deps P other) all

free_found :
    (P : Sets) (n : String)
    → member n (keys P) ≡ true
    → IsSubset (get_set n P) []
    → member n (keys (select is_free P)) ≡ true
unfolding member lookup
free_found [] n key all = cc
free_found ((name, []) ∷ P) n key all = elim (Bool-cases (name == n)) [
  | inl same ↦ rw same refl
  | inr other ↦ rw other (free_found P n (ground arith) (IsSubset-other name n [] P other all))
]
free_found ((name, y ∷ ys) ∷ P) n key all = elim (Bool-cases (name == n)) [
  | inl same ↦
      let first : member y (y ∷ ys) ≡ true = rw (beq_refl y) refl in
      let nothing : member y [] ≡ true = all y (
        subst (λ (xs : List String). member y xs ≡ true) (sym (get_set-here name n (y ∷ ys) P same))
          first) in
      cc
  | inr other ↦ free_found P n (ground arith) (IsSubset-other name n (y ∷ ys) P other all)
]

start-IsWaiting : (P : Sets) → IsWaiting P [] (reversed (keys (select is_free P)) []) P
unfolding member
start-IsWaiting P = record {
  left = λ n x m. (m, refl);
  found = λ n key all.
      let free = free_found P n key all in
      ground (arith, member-reversed n (keys (select is_free P)) []);
  entries = key_present P;
}

lookup-Mem : (P : Sets) (e : String × List String) → IsDict P → Memᴰ e P → get_set e.0 P ≡ e.1
unfolding lookup
lookup-Mem [] e d m = elim m [ ]
lookup-Mem ((name, deps) ∷ P) e d (Memᴰ.head p) =
    subst (λ (q : String × List String). get_set q.0 ((name, deps) ∷ P) ≡ q.1) (sym p)
      (get_set-here name name deps P (beq_refl name))
lookup-Mem ((name, deps) ∷ P) e d (Memᴰ.tail m) =
    let listed = Mem-member e.0 (keys P) (Memᴰ-map (λ q. q.0) e P m) in
    let other : (name == e.0) ≡ false =
      ground (arith, string_eq.beq_iff name e.0, key_absent P name d.0) in
    get_set-other name e.0 deps P other ∙ lookup-Mem P e d.1 m

keys-Distinct : (P : Sets) → IsDict P → Distinct (keys P)
keys-Distinct [] d = tt
keys-Distinct ((name, deps) ∷ P) d = (key_absent P name d.0, keys-Distinct P d.1)

-- The reversal of a closed map is built.
build-IsDependents :
    (P : Sets)
    → IsDict P
    → IsClosed P
    → (dependents : Sets) × (build_successors (keys P) P ≡ ok dependents)
      × IsDependents P dependents
unfolding build_successors member
build-IsDependents P d closed =
    let start = map no_successors (keys P) in
    let (dependents, built, keeps) = add_successors_total P start (
      All-of_mem P λ p m. All-of_mem p.1 λ x mx.
        contains-no_successors (keys P) x
          (closed x p.0 (rw (lookup-Mem P p d m) (Mem-member x p.1 mx)))) in
    (
      dependents,
      built,
      record {
        edges = λ x y.
            build_successors-member (keys P) P dependents x y built ∙ has_edge-get_set P x y d;
        once = λ x.
            add_successors-Distinct P start dependents x
              (λ y. subst (λ (xs : List String). Distinct xs) (sym (get_set_empty (keys P) y)) tt)
              built;
        entries = λ n key. keeps n (contains-no_successors (keys P) n key);
      },
    )

-- A graph without a cycle, all of whose edges start at its nodes, passes the check: no error is
-- raised, and the rounds that the loop is given are enough.
pub check_acyclic_total :
    (P : Sets) (rank : String → ℕ)
    → IsDict P
    → IsClosed P
    → IsRanked P rank
    → (settled : List String) × (check_acyclic P ≡ ok settled)
unfolding check_acyclic
check_acyclic_total P rank d closed ranked =
    let (dependents, built, back) = build-IsDependents P d closed in
    let ready = reversed (keys (select is_free P)) [] in
    let (out, run, ended) =
      settle_all_total (length P) P dependents ready P [] back (start-IsSorting P d)
        (start-IsWaiting P) in
    let (_, distinct, listed) =
      settle_all-IsSorting (length P) P dependents ready P [] out
        (λ x y m. sym (back.edges x y) ∙ m) back.once (start-IsSorting P d) run in
    let fewer = length-IsSubset out (keys P) distinct listed in
    let counted : length out ≡ length P = elim ended [
      | inr all_rounds ↦ omega (arith, all_rounds)
      | inl all ↦
          let more = length-IsSubset (keys P) out (keys-Distinct P d) (λ n key.
            all_settled P rank out ranked closed all (suc (rank n)) n (omega arith) key) in
          omega (arith, length-keys P)
    ] in
    (
      out,
      rw (built, check_acyclic)
          (rw run (rw ((nat_beq_iff (length out) (length P)).1 counted) refl)),
    )
