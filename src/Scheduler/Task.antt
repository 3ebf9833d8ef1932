-- ===== src/Scheduler/Task.antt =====
-- Task (diflow/backend/scheduler/task.py) and the tests of task pairs (utils.py,
-- dynamic_scheduler.py, exclusive_scheduler.py, random_scheduler.py).
use diflow.Prelude.{
  ℕ, Bool, false, ◌&&◌, Option, some, List, String, nat_beq, length, if◌then◌else◌, ◌==◌, string_eq,
  Dict, lookup, Outcome, ok, key_error, ◌>>=◌, or_raise, every, some_of,
}
use diflow.Workflow.{WorkflowNode}

-- A tensor on a worker: the text of its dtype, in lower case, and its shape.
pub record TensorInfo : Type 0 where
  pub dtype : String
  pub size : List ℕ

-- What the schedulers read of a task. The request's inputs carry its height and width, which are 0
-- where they have none; a value that `int` refuses is absent here.
pub record Task : Type 0 where
  pub request_id : String
  pub workflow_node : WorkflowNode
  pub height : Option ℕ
  pub width : Option ℕ
  pub input_map : Dict String String
  pub lazy_inputs : Dict String String
  pub node_input_locations : Dict String (Dict ℕ TensorInfo)

-- `{patch.id for patch in patches1} == {patch.id for patch in patches2}`
abbrev same_set : List String → List String → Bool
same_set xs ys =
    every (λ x. some_of (λ y. y == x) ys) xs && every (λ y. some_of (λ x. x == y) xs) ys

-- `have_same_patches`
unfoldable pub have_same_patches : Task → Task → Bool
have_same_patches t u = same_set t.workflow_node.op.patches u.workflow_node.op.patches

abbrev both : Option ℕ → Option ℕ → ℕ × ℕ
both (some h) (some w) = (h, w)
both _ _ = (0, 0)

-- `_task_resolution`
unfoldable pub task_resolution : Task → ℕ × ℕ
task_resolution t = both t.height t.width

abbrev same_resolution : ℕ × ℕ → ℕ × ℕ → Bool
same_resolution (h, w) (h', w') = nat_beq h h' && nat_beq w w'

abbrev same_model : Task → Task → Bool
same_model t u =
    t.workflow_node.op.id == u.workflow_node.op.id && t.workflow_node.mode == u.workflow_node.mode

abbrev no_lazy_inputs : Task → Task → Bool
no_lazy_inputs t u = nat_beq (length t.lazy_inputs) 0 && nat_beq (length u.lazy_inputs) 0

-- Slices are grouped within a request, where they read one tensor.
abbrev same_tensor : Task → Task → Outcome Bool
same_tensor t u = do
  a ← or_raise key_error (lookup "tensor" t.input_map)
  b ← or_raise key_error (lookup "tensor" u.input_map)
  ok (a == b)

-- The tail that the policies share.
unfoldable pub groupable_inputs : Task → Task → Outcome Bool
groupable_inputs t u =
    if t.workflow_node.op.id == "IndexedTensor"
    then (if t.request_id == u.request_id then same_tensor t u else ok false)
    else ok (no_lazy_inputs t u)

-- `can_group_tasks` of DynamicScheduler, ExclusiveScheduler and RandomScheduler.
unfoldable pub dynamic_can_group : Task → Task → Outcome Bool
unfolding have_same_patches task_resolution groupable_inputs
dynamic_can_group t u =
    if same_model t u
      && (same_resolution (task_resolution t) (task_resolution u) && have_same_patches t u)
    then groupable_inputs t u
    else ok false

unfoldable pub exclusive_can_group : Task → Task → Outcome Bool
unfolding have_same_patches groupable_inputs
exclusive_can_group t u =
    if same_model t u && (have_same_patches t u && t.request_id == u.request_id)
    then groupable_inputs t u
    else ok false

unfoldable pub random_can_group : Task → Task → Outcome Bool
unfolding have_same_patches groupable_inputs
random_can_group t u =
    if same_model t u && have_same_patches t u then groupable_inputs t u else ok false
