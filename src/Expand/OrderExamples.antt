-- ===== src/Expand/OrderExamples.antt =====
-- The acyclicity check on a chain of three nodes.
use diflow.Prelude.{
  ℕ, ◌≡◌, refl, List, [], ◌∷◌, String, string_eq, arith, lookup, insert, member, add_element,
  IsDict, ok,
}
use diflow.Dependency.{Sets, build_successors}
use diflow.Dependency.Edges.{IsRanked}
use diflow.Expand.Checks.{check_acyclic}
use diflow.Expand.Accepts.{IsClosed, check_acyclic_total}
use diflow.Expand.Ranked.{rank_in, check_acyclic-IsRanked}

abbrev graph : Sets
graph = ("enc_0", []) ∷ ("dit_0", "enc_0" ∷ []) ∷ ("dit_1", "dit_0" ∷ []) ∷ []

graph-IsDict : IsDict graph
unfolding lookup
graph-IsDict = (refl, (refl, (refl, tt)))

sorted : check_acyclic graph ≡ ok ("dit_1" ∷ "dit_0" ∷ "enc_0" ∷ [])
unfolding check_acyclic build_successors lookup insert member add_element
sorted = refl

check_acyclic-IsRanked_example : IsRanked graph (rank_in ("dit_1" ∷ "dit_0" ∷ "enc_0" ∷ []))
check_acyclic-IsRanked_example =
    check_acyclic-IsRanked graph ("dit_1" ∷ "dit_0" ∷ "enc_0" ∷ []) graph-IsDict sorted

abbrev order : String → ℕ
order = rank_in ("dit_1" ∷ "dit_0" ∷ "enc_0" ∷ [])

graph-IsClosed : IsClosed graph
unfolding lookup member
graph-IsClosed x y h =
    ground
      (arith, string_eq.beq_iff "enc_0" y, string_eq.beq_iff "dit_0" y, string_eq.beq_iff "dit_1" y)

graph-IsRanked : IsRanked graph order
graph-IsRanked = check_acyclic-IsRanked graph ("dit_1" ∷ "dit_0" ∷ "enc_0" ∷ []) graph-IsDict sorted

check_acyclic_total_example : (settled : List String) × (check_acyclic graph ≡ ok settled)
check_acyclic_total_example =
    check_acyclic_total graph order graph-IsDict graph-IsClosed graph-IsRanked
