-- ===== src/Expand/Examples.antt =====
-- A workflow with a loop over its denoising steps, expanded for a request of two steps.
use mathlib.Core.Path.{subst}
use mathlib.Core.List.{Memᴰ}
use diflow.Prelude.{
  sym, All, List, ◌≡◌, refl, ◌⊎◌, ◌+◌, true, false, none, some, [], ◌∷◌, ◌++◌, String, string_eq,
  append, lookup, insert, member, add_element, starts_with, Distinct, length, Dict, ok,
}
use diflow.Json.{pos, Scalar}
use diflow.Workflow.{NodeIo, Operator, WorkflowNode, SourceType}
use diflow.Dependency.{build_successors, get_node_dependencies}
use diflow.Expr.{input_ref, eval}
use diflow.Expr.Examples.{scalars}
use diflow.Region.{
  Loop, Program, Workflow, loop_region, no_ops, node_op, iv_name, literal, region_id, iteration,
  decimal, placeholder_names, decimal_within,
}
use diflow.Expand.{Expansion, expand_region, resolve}
use diflow.Expand.Checks.{expand_workflow_pure}
use diflow.Expand.Count.{region_count, expand_region-count}
use diflow.Coordinator.Inputs.{RequestSources, prepare_task_inputs}
use diflow.Coordinator.Inputs.Preparable.{IsPreparable}
use diflow.Coordinator.Tracking.{IsFed}
use diflow.Coordinator.{
  Request, Preparing, preparing, start_request, mark_node_completed, is_request_complete,
}
use diflow.Coordinator.Run.{start}
use diflow.Service.Single.{output_names}
use diflow.Service.{expanded_request-progress}

abbrev tensor : String → NodeIo
tensor name = record {
  name = name;
  data_type = "torch.Tensor";
  source_type = some SourceType.node;
  source_node = none;
  size = none;
  lazy = false;
}

abbrev from_input : String → NodeIo
from_input name = record (tensor name) { source_type = some SourceType.input }

abbrev op : String → Operator
op id = record {
  id = id;
  patches = [];
  is_scheduler = false;
  op_outputs = ("out", tensor "out") ∷ [];
  execution_modes = [];
}

abbrev encoder : WorkflowNode
encoder = record {
  name = "enc_0";
  op = op "enc";
  mode = "default";
  inputs = ("text", from_input "prompt") ∷ [];
  outputs = ("out", tensor "enc_0:out") ∷ [];
}

abbrev model : WorkflowNode
model = record {
  name = "dit_t";
  op = op "dit";
  mode = "default";
  inputs = ("latents", tensor "loop_carry:x") ∷ ("step", from_input "loop_iv") ∷ [];
  outputs = ("out", tensor "dit_t:out") ∷ [];
}

abbrev steps : Loop
steps = record {
  id = "loop";
  trip_count = input_ref "steps";
  induction_var = from_input "loop_iv";
  carry_placeholders = ("x", tensor "loop_carry:x") ∷ [];
  carry_init = ("x", tensor "enc_0:out") ∷ [];
  carry_out = ("x", tensor "dit_t:out") ∷ [];
  results = ("x", tensor "loop:x") ∷ [];
  iv_name_template = region_id ∷ literal "_iv_" ∷ iteration ∷ [];
}

abbrev body : Program
body = node_op model no_ops

abbrev workflow : Workflow
workflow = record {
  name = "denoise";
  workflow_nodes = encoder ∷ [];
  inputs = [];
  outputs = ("loop:x", "image") ∷ [];
  regions = loop_region steps body ∷ [];
}

abbrev inputs : Dict String Scalar
inputs = ("prompt", Scalar.str "a cat") ∷ ("steps", Scalar.int (pos 2)) ∷ []

-- One round's copy of the model.
abbrev made_by_node : String → String → NodeIo
made_by_node node name = record (tensor name) { source_node = some node }

abbrev round : String → String → NodeIo → WorkflowNode
round name step latents = record {
  name = name;
  op = op "dit";
  mode = "default";
  inputs = ("latents", latents) ∷ ("step", from_input step) ∷ [];
  outputs = ("out", made_by_node name (append name ":out")) ∷ [];
}

abbrev first : WorkflowNode
first = round "dit_0" "loop_iv_0" (tensor "enc_0:out")

abbrev second : WorkflowNode
second = round "dit_1" "loop_iv_1" (made_by_node "dit_0" "dit_0:out")

abbrev expanded : Workflow
expanded = record {
  name = "denoise";
  workflow_nodes = encoder ∷ first ∷ second ∷ [];
  inputs = [];
  outputs = ("dit_1:out", "image") ∷ [];
  regions = [];
}

abbrev injected : Dict String Scalar
injected = ("loop_iv_0", Scalar.int (pos 0)) ∷ ("loop_iv_1", Scalar.int (pos 1)) ∷ []

unrolled : expand_workflow_pure scalars decimal workflow inputs ≡ ok (expanded, injected)
unfolding expand_workflow_pure expand_region eval decimal_within iv_name resolve placeholder_names
    build_successors starts_with lookup insert member add_element
unrolled = refl

abbrev begun : Request
begun = record {
  node_prerequisites = ("enc_0", []) ∷ ("dit_0", "enc_0" ∷ []) ∷ ("dit_1", "dit_0" ∷ []) ∷ [];
  node_lazy_prerequisites = ("enc_0", []) ∷ ("dit_0", []) ∷ ("dit_1", []) ∷ [];
  node_non_lazy_prerequisites =
      ("enc_0", []) ∷ ("dit_0", "enc_0" ∷ []) ∷ ("dit_1", "dit_0" ∷ []) ∷ [];
  node_successors = ("enc_0", "dit_0" ∷ []) ∷ ("dit_0", "dit_1" ∷ []) ∷ ("dit_1", []) ∷ [];
  tasks = "enc_0" ∷ "dit_0" ∷ "dit_1" ∷ [];
  scheduled_nodes = "enc_0" ∷ [];
  completed_nodes = [];
  queued = "enc_0" ∷ [];
}

abbrev kept : RequestSources Scalar
kept = record {
  inputs = inputs ++ injected;
  required_outputs = expanded.outputs;
  results = none;
  tensor_map = [];
}

abbrev prepare : Preparing
prepare = preparing kept expanded.workflow_nodes

started : start_request prepare (encoder ∷ first ∷ second ∷ []) ≡ ok begun
unfolding start_request preparing prepare_task_inputs get_node_dependencies build_successors lookup
    insert member add_element
started = refl

fed : (completed : List String) → IsFed kept expanded.workflow_nodes completed
unfolding lookup
fed completed n (Memᴰ.head e) ready =
    subst (λ (m : WorkflowNode). All (IsPreparable kept) m.inputs) (sym e) (refl, tt)
fed completed n (Memᴰ.tail (Memᴰ.head e)) ready =
    subst (λ (m : WorkflowNode). All (IsPreparable kept) m.inputs) (sym e) (refl, (refl, tt))
fed completed n (Memᴰ.tail (Memᴰ.tail (Memᴰ.head e))) ready =
    subst (λ (m : WorkflowNode). All (IsPreparable kept) m.inputs) (sym e) (refl, (refl, tt))
fed completed n (Memᴰ.tail (Memᴰ.tail (Memᴰ.tail m))) ready = elim m [ ]

outputs_differ : Distinct (output_names expanded.workflow_nodes)
unfolding member
outputs_differ = (refl, (refl, (refl, tt)))

expanded_request-progress_example :
    (is_request_complete begun ≡ true)
    ⊎ ((name : String) × (r' : Request) × (member name begun.queued ≡ true)
        × (member name begun.completed_nodes ≡ false)
        × (mark_node_completed prepare begun name ≡ ok r'))
expanded_request-progress_example =
    expanded_request-progress scalars decimal workflow expanded inputs injected (λ name. kept) begun
      unrolled outputs_differ (start prepare started)
      (λ name queued pending. fed (add_element name []))

abbrev before : Expansion scalars
before = record { subst = []; injected = []; emitted = encoder ∷ []; minted = 0 }

abbrev after : Expansion scalars
after = record {
  subst = ("loop:x", made_by_node "dit_1" "dit_1:out") ∷ [];
  injected = injected;
  emitted = encoder ∷ first ∷ second ∷ [];
  minted = 2;
}

looped :
    expand_region scalars decimal (loop_region steps body) inputs [] ([] ∷ []) before ≡ ok after
unfolding expand_region eval decimal_within iv_name resolve lookup insert member
looped = refl

expand_region-count_example :
    length after.emitted
    ≡ length before.emitted + region_count scalars decimal (loop_region steps body) inputs []
expand_region-count_example =
    expand_region-count scalars decimal (loop_region steps body) inputs [] ([] ∷ []) before after
      looped
