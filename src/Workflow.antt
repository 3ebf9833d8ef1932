-- ===== src/Workflow.antt =====
-- The graph of a request: diflow/interface/node_io.py, workflow_node.py and workflow.py, and what
-- the backend reads of diflow/operators/base.py.
use diflow.Prelude.{ℕ, Bool, Option, List, String, Dict}

pub data SourceType : Type 0 where
  input node : SourceType

-- The data type is kept as its text (`type_to_string`).
pub record NodeIo : Type 0 where
  pub name : String
  pub data_type : String
  pub source_type : Option SourceType
  pub source_node : Option String
  pub size : Option (List ℕ)
  pub lazy : Bool

-- An operator: its id, its patches' ids, whether it is a BaseScheduler, its outputs, and the
-- outputs of each execution mode.
pub record Operator : Type 0 where
  pub id : String
  pub patches : List String
  pub is_scheduler : Bool
  pub op_outputs : Dict String NodeIo
  pub execution_modes : Dict String (Dict String NodeIo)

-- `Operator.__call__` lets only NodeIO values into the inputs of a node, never None.
pub record WorkflowNode : Type 0 where
  pub name : String
  pub op : Operator
  pub mode : String
  pub inputs : Dict String NodeIo
  pub outputs : Dict String NodeIo
