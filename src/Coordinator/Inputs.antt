-- ===== src/Coordinator/Inputs.antt =====
-- `_prepare_task_inputs` (coordinator.py): where a task gets its inputs from. A value of a request's
-- inputs or results may have any type.
pub mod Entries
pub mod Preparable
pub mod Lazies
use diflow.Prelude.{
  ℕ, Bool, true, false, Option, none, some, List, [], ◌∷◌, ◌++◌, String, string_eq, if◌then◌else◌,
  Dict, lookup, insert, contains, Outcome, ok, ◌>>=◌, or_raise, key_error,
}
use diflow.Workflow.{NodeIo, WorkflowNode}
use diflow.Scheduler.Task.{TensorInfo}

-- What the coordinator keeps of the request: its inputs, the workflow's outputs with their final
-- names, the results so far if there are any, and where its tensors are.
pub record RequestSources (V : Type 0) : Type 0 where
  pub inputs : Dict String V
  pub required_outputs : Dict String String
  pub results : Option (Dict String V)
  pub tensor_map : Dict String (Dict ℕ TensorInfo)

-- The fields of a task that are filled. None among `node_inputs` stands for a tensor.
pub record Prepared (V : Type 0) : Type 0 where
  pub input_map : Dict String String
  pub output_map : Dict String String
  pub node_inputs : Dict String (Option V)
  pub node_input_locations : Dict String (Dict ℕ TensorInfo)
  pub required_outputs : List String
  pub lazy_inputs : Dict String String

module _ {V : Type 0} where
  abbrev pub unprepared : Prepared V
  unprepared = record {
    input_map = [];
    output_map = [];
    node_inputs = [];
    node_input_locations = [];
    required_outputs = [];
    lazy_inputs = [];
  }

  abbrev pub add_lazy : String → String → Prepared V → Prepared V
  add_lazy name tensor p = record p { lazy_inputs = insert name tensor p.lazy_inputs }

  abbrev pub add_value : String → Option V → Prepared V → Prepared V
  add_value name value p = record p { node_inputs = insert name value p.node_inputs }

  abbrev pub add_location : String → Dict ℕ TensorInfo → Prepared V → Prepared V
  add_location name copies p = record p {
    node_inputs = insert name none p.node_inputs;
    node_input_locations = insert name copies p.node_input_locations;
  }

  -- The results are read, and written to the task, under the final name of the output.
  abbrev pub add_result : RequestSources V → String → Prepared V → Outcome (Prepared V)
  add_result s final p = or_raise key_error s.results >>= λ results.
      or_raise key_error (lookup final results) >>= λ value. ok (add_value final (some value) p)

  -- An input that is not lazy; one that is nowhere is only logged.
  unfoldable pub prepare_eager :
      RequestSources V → String → String → Prepared V → Outcome (Prepared V)
  prepare_eager s name tensor p = elim (lookup tensor s.inputs) [
    | some value ↦ ok (add_value name (some value) p)
    | none ↦ elim (lookup tensor s.required_outputs) [
      | some final ↦ add_result s final p
      | none ↦ elim (lookup tensor s.tensor_map) [
        | some copies ↦ ok (add_location name copies p)
        | none ↦ ok p
      ]
    ]
  ]

  unfoldable pub prepare_input :
      RequestSources V → String → NodeIo → Prepared V → Outcome (Prepared V)
  unfolding prepare_eager
  prepare_input s name io p =
      let mapped = record p { input_map = insert name io.name p.input_map } in
      if io.lazy then ok (add_lazy name io.name mapped) else prepare_eager s name io.name mapped

  -- The loop over the node's inputs.
  unfoldable pub prepare_inputs :
      RequestSources V → Dict String NodeIo → Prepared V → Outcome (Prepared V)
  unfolding prepare_input
  prepare_inputs s [] p = ok p
  prepare_inputs s ((name, io) ∷ inputs) p = prepare_input s name io p >>= prepare_inputs s inputs

  abbrev add_output : RequestSources V → String → NodeIo → Prepared V → Prepared V
  add_output s name io p = record p {
    output_map = insert name io.name p.output_map;
    required_outputs =
        if contains io.name s.required_outputs
        then p.required_outputs ++ name ∷ []
        else p.required_outputs;
  }

  -- The loop over the node's outputs.
  unfoldable pub prepare_outputs : RequestSources V → Dict String NodeIo → Prepared V → Prepared V
  prepare_outputs s [] p = p
  prepare_outputs s ((name, io) ∷ outputs) p = prepare_outputs s outputs (add_output s name io p)

  -- `_prepare_task_inputs`
  unfoldable pub prepare_task_inputs : RequestSources V → WorkflowNode → Outcome (Prepared V)
  unfolding prepare_inputs prepare_outputs
  prepare_task_inputs s n =
      prepare_inputs s n.inputs unprepared >>= λ p. ok (prepare_outputs s n.outputs p)
