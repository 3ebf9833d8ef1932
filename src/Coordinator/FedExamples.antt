-- ===== src/Coordinator/FedExamples.antt =====
-- A completion that lets a node read an output of the workflow (coordinator.py).
use mathlib.Core.Path.{subst}
use mathlib.Core.List.{Memᴰ}
use diflow.Prelude.{
  ◌≡◌, refl, sym, true, false, none, some, List, [], ◌∷◌, String, string_eq, ok, lookup, contains,
  insert, member, add_element, Distinct, inl, inr, Bool-cases, ◌==◌, raise, key_error,
}
use diflow.Workflow.{NodeIo, Operator, SourceType, WorkflowNode}
use diflow.Dependency.{get_node_dependencies, build_successors}
use diflow.Dependency.Producers.{node_names}
use diflow.Coordinator.{Request, preparing, start_request, mark_node_completed}
use diflow.Coordinator.Inputs.{RequestSources, prepare_task_inputs}
use diflow.Coordinator.Inputs.Preparable.{is_stored_output}
use diflow.Coordinator.Run.{start}
use diflow.Coordinator.Tracking.{IsCompletion}
use diflow.Coordinator.Fed.{IsMadeApart, IsSeparate, AreReported, mark_node_completed_reported}

abbrev op : String → Operator
op id = record {
  id = id;
  patches = [];
  is_scheduler = false;
  op_outputs = [];
  execution_modes = [];
}

abbrev edge : String → SourceType → NodeIo
edge name kind = record {
  name = name;
  data_type = "str";
  source_type = some kind;
  source_node = none;
  size = none;
  lazy = false;
}

-- The first node makes a caption that is an output of the workflow, the second reads it.
abbrev caption : WorkflowNode
caption = record {
  name = "caption_0";
  op = op "caption";
  mode = "default";
  inputs = ("text", edge "prompt" SourceType.input) ∷ [];
  outputs = ("out", edge "caption_0:out" SourceType.node) ∷ [];
}

abbrev image : WorkflowNode
image = record {
  name = "image_0";
  op = op "image";
  mode = "default";
  inputs = ("caption", edge "caption_0:out" SourceType.node) ∷ [];
  outputs = ("out", edge "image_0:out" SourceType.node) ∷ [];
}

abbrev nodes : List WorkflowNode
nodes = caption ∷ image ∷ []

abbrev kept : RequestSources String
kept = record {
  inputs = ("prompt", "a cat") ∷ [];
  required_outputs = ("caption_0:out", "caption") ∷ [];
  results = none;
  tensor_map = [];
}

-- The worker has reported the caption.
abbrev reported : RequestSources String
reported = record kept { results = some (("caption", "a black cat") ∷ []) }

abbrev begun : Request
begun = record {
  node_prerequisites = ("caption_0", []) ∷ ("image_0", "caption_0" ∷ []) ∷ [];
  node_lazy_prerequisites = ("caption_0", []) ∷ ("image_0", []) ∷ [];
  node_non_lazy_prerequisites = ("caption_0", []) ∷ ("image_0", "caption_0" ∷ []) ∷ [];
  node_successors = ("caption_0", "image_0" ∷ []) ∷ ("image_0", []) ∷ [];
  tasks = "caption_0" ∷ "image_0" ∷ [];
  scheduled_nodes = "caption_0" ∷ [];
  completed_nodes = [];
  queued = "caption_0" ∷ [];
}

started : start_request (preparing kept nodes) nodes ≡ ok begun
unfolding start_request preparing prepare_task_inputs get_node_dependencies build_successors lookup
    insert member add_element
started = refl

-- Without the caption, the completion of the first node raises a KeyError.
too_early : mark_node_completed (preparing kept nodes) begun "caption_0" ≡ raise key_error
unfolding mark_node_completed preparing prepare_task_inputs lookup insert member add_element
too_early = refl

names_differ : Distinct (node_names nodes)
unfolding member
names_differ = (refl, (refl, tt))

abbrev ReadsApart : WorkflowNode → Type 0
ReadsApart n =
    (i : String × NodeIo)
    → Memᴰ i n.inputs
    → contains i.1.name reported.inputs ≡ false
    → IsMadeApart nodes n i

caption_given : ReadsApart caption
unfolding lookup
caption_given i (Memᴰ.head e) not_given =
    let no : true ≡ false =
      subst (λ (j : String × NodeIo). contains j.1.name reported.inputs ≡ false) e not_given in
    cc
caption_given i (Memᴰ.tail m) not_given = elim m [ ]

image_made : ReadsApart image
image_made i (Memᴰ.head e) not_given =
    subst (λ (j : String × NodeIo). IsMadeApart nodes image j) (sym e)
      (caption, Memᴰ.head refl, refl, refl, refl)
image_made i (Memᴰ.tail m) not_given = elim m [ ]

separate : IsSeparate reported nodes
separate n i (Memᴰ.head e) read eager not_given out =
    subst ReadsApart (sym e) caption_given i read not_given
separate n i (Memᴰ.tail (Memᴰ.head e)) read eager not_given out =
    subst ReadsApart (sym e) image_made i read not_given
separate n i (Memᴰ.tail (Memᴰ.tail m)) read eager not_given out = elim m [ ]

all_reported : AreReported reported nodes (add_element "caption_0" begun.completed_nodes)
unfolding lookup member
all_reported k tensor m done made = elim (Bool-cases ("caption_0:out" == tensor)) [
  | inl same ↦
      let e : "caption_0:out" ≡ tensor = (string_eq.beq_iff "caption_0:out" tensor).0 same in
      rw (← e) refl
  | inr other ↦ rw (other, is_stored_output) refl
]

mark_node_completed_reported_example :
    (r : Request) × (mark_node_completed (preparing reported nodes) begun "caption_0" ≡ ok r)
    × IsCompletion begun "caption_0" r
mark_node_completed_reported_example =
    mark_node_completed_reported reported nodes begun "caption_0" names_differ
      (start (preparing kept nodes) started) separate all_reported
