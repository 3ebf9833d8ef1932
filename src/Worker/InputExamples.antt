-- ===== src/Worker/InputExamples.antt =====
-- A task with a value, a tensor on this worker, one on another worker, and a lazy tensor.
use diflow.Prelude.{
  Dict, ℕ, ◌≡◌, refl, true, false, none, some, [], ◌∷◌, String, string_eq, nat_eq, lookup, insert,
  erase, ok, raise, value_error, key_error,
}
use diflow.Workflow.{NodeIo, Operator, WorkflowNode}
use diflow.Scheduler.Task.{TensorInfo}
use diflow.Coordinator.Inputs.{RequestSources, Prepared, prepare_task_inputs}
use diflow.Coordinator.Lazy.{Lazy, send_task}
use diflow.Worker.Inputs.{
  NodeInput, value, tensor, lazily, Engine, Collected, collect_inputs, free_all,
}
use diflow.Worker.Inputs.Single.{IsDelivered}
use diflow.Worker.Inputs.Delivered.{collect-prepare_task_inputs}
use diflow.Worker.Inputs.Misnamed.{prepare_task_inputs-misnames}

abbrev io : String → NodeIo
io name = record {
  name = name;
  data_type = "tensor";
  source_type = none;
  source_node = none;
  size = none;
  lazy = false;
}

abbrev op : Operator
op = record {
  id = "dit";
  patches = [];
  is_scheduler = false;
  op_outputs = [];
  execution_modes = [];
}

abbrev denoise : WorkflowNode
denoise = record {
  name = "denoise";
  op = op;
  mode = "default";
  inputs =
      ("steps", io "steps")
      ∷ ("embedding", io "text:out")
      ∷ ("latents", io "noise:out")
      ∷ ("hint", record (io "control:out") { lazy = true })
      ∷ [];
  outputs = ("image", io "denoise:out") ∷ [];
}

abbrev info : TensorInfo
info = record { dtype = "torch.float16"; size = 4 ∷ [] }

-- A value of the request is a number here, a tensor is its name.
abbrev sources : RequestSources ℕ
sources = record {
  inputs = ("steps", 20) ∷ [];
  required_outputs = ("denoise:out", "picture") ∷ [];
  results = none;
  tensor_map = ("text:out", (1, info) ∷ []) ∷ ("noise:out", (0, info) ∷ (1, info) ∷ []) ∷ [];
}

abbrev engine : Engine String
engine = record { fetch = λ id i rank. "fetched"; describe = λ t. info }

abbrev held : Collected ℕ String
held = record {
  node_inputs = [];
  tensor_map = ("r1", ("noise:out", "noise") ∷ []) ∷ [];
  tensor_infos = [];
}

abbrev task : Prepared ℕ
task = record {
  input_map =
      ("steps", "steps")
      ∷ ("embedding", "text:out")
      ∷ ("latents", "noise:out")
      ∷ ("hint", "control:out")
      ∷ [];
  output_map = ("image", "denoise:out") ∷ [];
  node_inputs = ("steps", some 20) ∷ ("embedding", none) ∷ ("latents", none) ∷ [];
  node_input_locations =
      ("embedding", (1, info) ∷ []) ∷ ("latents", (0, info) ∷ (1, info) ∷ []) ∷ [];
  required_outputs = "image" ∷ [];
  lazy_inputs = ("hint", "control:out") ∷ [];
}

prepared : prepare_task_inputs sources denoise ≡ ok task
unfolding prepare_task_inputs lookup insert
prepared = refl

collected :
    collect_inputs engine 0 "r1" task denoise.inputs held
    ≡ ok (record {
      node_inputs =
          ("steps", value (some 20))
          ∷ ("embedding", tensor "fetched")
          ∷ ("latents", tensor "noise")
          ∷ ("hint", lazily "control:out")
          ∷ [];
      tensor_map = ("r1", ("noise:out", "noise") ∷ ("text:out", "fetched") ∷ []) ∷ [];
      tensor_infos = ("text:out", info) ∷ [];
    })
unfolding collect_inputs lookup insert
collected = refl

freed_here : free_all (("r1", "noise:out" ∷ []) ∷ []) held.tensor_map ≡ ok (("r1", []) ∷ [])
unfolding free_all lookup insert erase
freed_here = refl

unknown_request : free_all (("r2", "noise:out" ∷ []) ∷ []) held.tensor_map ≡ raise key_error
unfolding free_all lookup
unknown_request = refl

-- When the task is sent, the lazy tensor has arrived as well, on worker 1.
abbrev stored : Dict String (Dict ℕ TensorInfo)
stored =
    ("text:out", (1, info) ∷ [])
    ∷ ("noise:out", (0, info) ∷ (1, info) ∷ [])
    ∷ ("control:out", (1, info) ∷ [])
    ∷ []

abbrev lazy : Lazy
lazy = record { tensor_map = some stored; lazy_input_dependents = []; notifying = []; sent = [] }

abbrev located : Prepared ℕ
located = record task {
  node_input_locations =
      ("embedding", (1, info) ∷ [])
      ∷ ("latents", (0, info) ∷ (1, info) ∷ [])
      ∷ ("hint", (1, info) ∷ [])
      ∷ [];
  lazy_inputs = [];
}

sent : send_task "denoise" 0 task lazy ≡ ok (located, lazy)
unfolding send_task lookup insert
sent = refl

unsent : send_task "denoise" 0 task (record lazy { tensor_map = none }) ≡ raise key_error
unfolding send_task
unsent = refl

collect-prepare_task_inputs_example :
    (p : Prepared ℕ) × (t : Prepared ℕ) × (lazy' : Lazy) × (c : Collected ℕ String)
    × (prepare_task_inputs sources denoise ≡ ok p)
    × (send_task "denoise" 0 p lazy ≡ ok (t, lazy'))
    × (collect_inputs engine 0 "r1" t denoise.inputs held ≡ ok c)
    × ((name : String) (i : NodeIo)
        → lookup name denoise.inputs ≡ some i
        → (given : NodeInput ℕ String) × (lookup name c.node_inputs ≡ some given)
          × IsDelivered sources stored i given)
unfolding lookup
collect-prepare_task_inputs_example =
    collect-prepare_task_inputs engine sources lazy stored 0 "r1" denoise held refl
      (refl, (refl, (refl, (refl, tt)))) (refl, (refl, (refl, (refl, tt))))
      (refl, (refl, (refl, (refl, tt))))

-- The prompt that one node improves is an output of the workflow, and an input of another node.
abbrev reader : WorkflowNode
reader = record denoise { inputs = ("prompt", io "rewrite:out") ∷ [] }

abbrev with_result : RequestSources ℕ
with_result = record sources {
  required_outputs = ("rewrite:out", "used_prompt") ∷ [];
  results = some (("used_prompt", 7) ∷ []);
}

prepare_task_inputs-misnames_example :
    (p : Prepared ℕ) × (prepare_task_inputs with_result reader ≡ ok p)
    × (lookup "used_prompt" p.node_inputs ≡ some (some 7))
    × (lookup "prompt" p.node_inputs ≡ none)
    × (collect_inputs engine 0 "r1" p reader.inputs held ≡ raise value_error)
unfolding lookup
prepare_task_inputs-misnames_example =
    prepare_task_inputs-misnames engine with_result 0 "r1" reader held "prompt" "used_prompt"
      (io "rewrite:out") (("used_prompt", 7) ∷ []) 7 refl refl refl refl refl refl refl
