-- ===== src/Expand/Passes.antt =====
-- The passes over a whole workflow (diflow/interface/workflow_expand.py): plain nodes are kept,
-- regions expanded in authoring order, and the results of regions replaced in inputs and outputs.
use diflow.Prelude.{
  ℕ, none, some, List, [], ◌∷◌, map, String, string_eq, Dict, lookup, insert, Outcome, ok, ◌>>=◌,
}
use diflow.Workflow.{NodeIo, WorkflowNode}
use diflow.Expr.{Values}
use diflow.Region.{Region, Workflow}
use diflow.Expand.{Expansion, expand_region}

abbrev rewired : Dict String NodeIo → String × NodeIo → String × NodeIo
rewired subst (key, io) = (key, elim (lookup io.name subst) [ some found ↦ found | none ↦ io ])

-- Pass 3: the inputs that name a substituted result are pointed at what replaced it.
unfoldable pub rewire : Dict String NodeIo → WorkflowNode → WorkflowNode
rewire subst n = record n { inputs = map (rewired subst) n.inputs }

-- Pass 4: `{(subst[key].name if key in subst else key): value for ...}`
unfoldable pub remap_outputs :
    Dict String NodeIo → Dict String String → Dict String String → Dict String String
remap_outputs subst [] out = out
remap_outputs subst ((key, value) ∷ outputs) out =
    remap_outputs subst outputs
      (insert (elim (lookup key subst) [ some io ↦ io.name | none ↦ key ]) value out)

module _ (V : Values) (uuid : ℕ → String) where
  -- The loop over a workflow's regions: each consults what the ones before it substituted.
  unfoldable pub expand_regions :
      List Region → Dict String V.Value → Expansion V → Outcome (Expansion V)
  unfolding expand_region
  expand_regions [] inputs s = ok s
  expand_regions (r ∷ regions) inputs s = do
    s' ← expand_region V uuid r inputs [] ([] ∷ []) s
    expand_regions regions inputs s'

  -- The four passes of `expand_workflow_pure`, before its checks: the expanded workflow, and the
  -- values to inject.
  unfoldable pub expand_passes :
      Workflow → Dict String V.Value → Outcome (Workflow × Dict String V.Value)
  unfolding expand_regions rewire remap_outputs
  expand_passes w inputs = do
    s ←
        expand_regions w.regions inputs
          (record { subst = []; injected = []; emitted = w.workflow_nodes; minted = 0 })
    ok (
      record {
        name = w.name;
        workflow_nodes = map (rewire s.subst) s.emitted;
        inputs = w.inputs;
        outputs = remap_outputs s.subst w.outputs [];
        regions = [];
      },
      s.injected,
    )
