-- ===== src/Region.antt =====
-- Control-flow regions (diflow/interface/region.py): a traced body with a loop or a branch around it,
-- and the placeholders that stand for values of the expansion. A workflow is a list of nodes and a
-- list of regions (diflow/interface/workflow.py).
use diflow.Prelude.{
  ℕ, zero, suc, ◌/◌, ◌%◌, Bool, Option, none, some, List, [], ◌∷◌, ◌++◌, map, String, ltb,
  get_elem?, if◌then◌else◌, append, Dict,
}
use diflow.Workflow.{NodeIo, input, node, WorkflowNode}
use diflow.Expr.{Expr}

-- A part of `iv_name_template`: plain text, or one of the two fields that `iv_name` fills in.
pub data Piece : Type 0 where
  literal : String → Piece
  region_id iteration : Piece

-- The fields of a LoopRegion but its body, and of a CondRegion but its bodies.
pub record Loop : Type 0 where
  pub id : String
  pub trip_count : Expr
  pub induction_var : NodeIo
  pub carry_placeholders : Dict String NodeIo
  pub carry_init : Dict String NodeIo
  pub carry_out : Dict String NodeIo
  pub results : Dict String NodeIo
  pub iv_name_template : List Piece

pub record Cond : Type 0 where
  pub id : String
  pub predicate : Expr
  pub then_results : Dict String NodeIo
  pub results : Dict String NodeIo
  pub else_results : Option (Dict String NodeIo)

mutual
  pub data Region : Type 0 where
    loop_region : Loop → Program → Region
    cond_region : Cond → Program → Region
    cond_else_region : Cond → Program → Program → Region

  -- `RegionProgram.ops`, in authoring order.
  pub data Program : Type 0 where
    no_ops : Program
    node_op : WorkflowNode → Program → Program
    region_op : Region → Program → Program

pub record Workflow : Type 0 where
  pub name : String
  pub workflow_nodes : List WorkflowNode
  pub inputs : Dict String NodeIo
  pub outputs : Dict String String
  pub regions : List Region

-- The decimal text of a number, with the number itself as bound on its digits.
abbrev digits : List String
digits = "0" ∷ "1" ∷ "2" ∷ "3" ∷ "4" ∷ "5" ∷ "6" ∷ "7" ∷ "8" ∷ "9" ∷ []

abbrev digit : ℕ → String
digit n = elim (get_elem? digits n) [ none ↦ "" | some s ↦ s ]

unfoldable pub decimal_within : ℕ → ℕ → String
decimal_within zero n = digit n
decimal_within (suc fuel) n =
    let front = decimal_within fuel (n / 10) in
    if ltb n 10 then digit n else append front (digit (n % 10))

abbrev pub decimal : ℕ → String
unfolding decimal_within
decimal n = decimal_within n n

-- `make_induction_var`, `make_carry_placeholder`, `make_region_result`
pub make_induction_var : String → NodeIo
make_induction_var id = record {
  name = append id "_iv";
  data_type = "builtins.int";
  source_type = some input;
  source_node = none;
  size = none;
  lazy = Bool.false;
}

pub make_carry_placeholder : String → String → NodeIo → NodeIo
make_carry_placeholder id key like = record {
  name = append id (append "_carry:" key);
  data_type = like.data_type;
  source_type = some node;
  source_node = some (append id "_carry");
  size = like.size;
  lazy = like.lazy;
}

pub make_region_result : String → String → NodeIo → NodeIo
make_region_result id key like = record {
  name = append id (append ":" key);
  data_type = like.data_type;
  source_type = some node;
  source_node = some id;
  size = like.size;
  lazy = like.lazy;
}

-- `iv_name`
abbrev piece_text : String → ℕ → Piece → String
piece_text id i (literal s) = s
piece_text id i region_id = id
piece_text id i iteration = decimal i

abbrev pub format : List Piece → String → ℕ → String
format [] id i = ""
format (p ∷ ps) id i = append (piece_text id i p) (format ps id i)

unfoldable pub iv_name : Loop → ℕ → String
iv_name loop i = format loop.iv_name_template loop.id i

abbrev pub io_names : Dict String NodeIo → List String
io_names = map (λ e. e.1.name)

-- `own_placeholder_names`
unfoldable pub loop_placeholders : Loop → List String
loop_placeholders loop =
    loop.induction_var.name ∷ (io_names loop.carry_placeholders ++ io_names loop.results)

unfoldable mutual
  unfolding loop_placeholders

  -- `placeholder_names`: those of the region, and of the regions nested in it.
  pub placeholder_names : Region → List String
  placeholder_names (loop_region loop body) =
      loop_placeholders loop ++ nested_placeholder_names body
  placeholder_names (cond_region cond then_body) =
      io_names cond.results ++ nested_placeholder_names then_body
  placeholder_names (cond_else_region cond then_body else_body) =
      io_names cond.results
      ++ (nested_placeholder_names then_body ++ nested_placeholder_names else_body)

  pub nested_placeholder_names : Program → List String
  nested_placeholder_names no_ops = []
  nested_placeholder_names (node_op n ops) = nested_placeholder_names ops
  nested_placeholder_names (region_op r ops) = placeholder_names r ++ nested_placeholder_names ops

unfoldable mutual
  -- `iter_nodes`
  pub region_nodes : Region → List WorkflowNode
  region_nodes (loop_region loop body) = iter_nodes body
  region_nodes (cond_region cond then_body) = iter_nodes then_body
  region_nodes (cond_else_region cond then_body else_body) =
      iter_nodes then_body ++ iter_nodes else_body

  pub iter_nodes : Program → List WorkflowNode
  iter_nodes no_ops = []
  iter_nodes (node_op n ops) = n ∷ iter_nodes ops
  iter_nodes (region_op r ops) = region_nodes r ++ iter_nodes ops
