-- ===== src/Service/Single.antt =====
-- The values that the nodes of a workflow make, by name (diflow/interface/workflow_expand.py).
use mathlib.Core.Path.{subst}
use mathlib.Core.List.{Memᴰ}
use diflow.Prelude.{
  ◌≡◌, refl, true, false, List, [], ◌∷◌, String, arith, ◌==◌, string_eq, some_of, Dict, member,
  member-append, ◌++◌, Distinct,
}
use diflow.Workflow.{NodeIo, WorkflowNode}
use diflow.Dependency.Producers.{produces}
use diflow.Region.{io_names}

-- No two nodes make a value of the same name.
abbrev pub IsSingle : List WorkflowNode → Type 0
IsSingle nodes =
    (a b : WorkflowNode) (wanted : String)
    → Memᴰ a nodes
    → Memᴰ b nodes
    → produces wanted a ≡ true
    → produces wanted b ≡ true
    → a.name ≡ b.name

-- The names of the values that the nodes make.
abbrev pub output_names : List WorkflowNode → List String
output_names [] = []
output_names (n ∷ nodes) = io_names n.outputs ++ output_names nodes

Distinct-append_right : (xs ys : List String) → Distinct (xs ++ ys) → Distinct ys
Distinct-append_right [] ys d = d
Distinct-append_right (x ∷ xs) ys d = Distinct-append_right xs ys d.1

Distinct-append_apart :
    (xs ys : List String) (a : String)
    → Distinct (xs ++ ys)
    → member a xs ≡ true
    → member a ys ≡ false
unfolding member
Distinct-append_apart [] ys a d m = cc
Distinct-append_apart (x ∷ xs) ys a d m =
    ground
      (arith, string_eq.beq_iff x a, member-append x xs ys, d.0, Distinct-append_apart xs ys a d.1)

produces-io_names :
    (wanted : String) (outputs : Dict String NodeIo)
    → some_of (λ (o : String × NodeIo). o.1.name == wanted) outputs
      ≡ member wanted (io_names outputs)
unfolding member
produces-io_names wanted [] = refl
produces-io_names wanted ((key, io) ∷ outputs) = ground (arith, produces-io_names wanted outputs)

produces-output_names :
    (nodes : List WorkflowNode) (a : WorkflowNode) (wanted : String)
    → Memᴰ a nodes
    → produces wanted a ≡ true
    → member wanted (output_names nodes) ≡ true
produces-output_names [] a wanted m h = elim m [ ]
produces-output_names (n ∷ nodes) a wanted (Memᴰ.head e) h =
    let h' = subst (λ k. produces wanted k ≡ true) e h in
    ground (
      arith,
      member-append wanted (io_names n.outputs) (output_names nodes),
      produces-io_names wanted n.outputs,
    )
produces-output_names (n ∷ nodes) a wanted (Memᴰ.tail m) h = ground (
  arith,
  member-append wanted (io_names n.outputs) (output_names nodes),
  produces-output_names nodes a wanted m h,
)

-- Then a value has one maker.
pub IsSingle-of_Distinct :
    (nodes : List WorkflowNode) → Distinct (output_names nodes) → IsSingle nodes
IsSingle-of_Distinct [] d a b wanted ma mb ha hb = elim ma [ ]
IsSingle-of_Distinct (n ∷ nodes) d a b wanted (Memᴰ.head ea) (Memᴰ.head eb) ha hb = rw (ea, eb) refl
IsSingle-of_Distinct (n ∷ nodes) d a b wanted (Memᴰ.head ea) (Memᴰ.tail mb) ha hb =
    let ha' = subst (λ k. produces wanted k ≡ true) ea ha in
    let apart = Distinct-append_apart (io_names n.outputs) (output_names nodes) wanted d in
    let later = produces-output_names nodes b wanted mb hb in
    ground (arith, produces-io_names wanted n.outputs)
IsSingle-of_Distinct (n ∷ nodes) d a b wanted (Memᴰ.tail ma) (Memᴰ.head eb) ha hb =
    let hb' = subst (λ k. produces wanted k ≡ true) eb hb in
    let apart = Distinct-append_apart (io_names n.outputs) (output_names nodes) wanted d in
    let later = produces-output_names nodes a wanted ma ha in
    ground (arith, produces-io_names wanted n.outputs)
IsSingle-of_Distinct (n ∷ nodes) d a b wanted (Memᴰ.tail ma) (Memᴰ.tail mb) ha hb =
    IsSingle-of_Distinct nodes (Distinct-append_right (io_names n.outputs) (output_names nodes) d) a
      b wanted ma mb ha hb
