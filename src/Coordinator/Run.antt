-- ===== src/Coordinator/Run.antt =====
-- The runs of one request: completions of scheduled tasks, in any order (coordinator.py).
use diflow.Prelude.{
  ◌≡◌, sym, ◌∙◌, true, ◌||◌, List, [], ◌∷◌, arith, String, string_eq, ok, require-eq-ok, key_error,
  member, Distinct, member-add, >>=-eq-ok, ok-injective, IsSubset, Distinct-add,
}
use diflow.Workflow.{WorkflowNode}
use diflow.Dependency.{get_set}
use diflow.Dependency.Producers.{node_names}
use diflow.Coordinator.{
  Request, Preparing, schedule_if_ready, schedule_successors, mark_node_completed, start_request,
}
use diflow.Coordinator.Progress.{schedule_if_ready-ok}
use diflow.Coordinator.Tracking.{
  waits_for, one_from, IsTracked, start_request-IsStarted, mark_node_completed-IsCompletion,
}

-- A worker reports a task that was put on the queue, and the coordinator marks it completed; the tasks
-- that become ready are prepared from what it keeps of the request then.
pub data Step (r r' : Request) : Type 0 where
  finish :
      (prepare : Preparing) (name : String)
      → member name r.queued ≡ true
      → mark_node_completed prepare r name ≡ ok r'
      → Step r r'

-- The states a request can get to, whatever the preparations of its tasks find.
pub data Reach (nodes : List WorkflowNode) : Request → Type 0 where
  start : {r : Request} (prepare : Preparing) → start_request prepare nodes ≡ ok r → Reach nodes r
  more : {r r' : Request} → Reach nodes r → Step r r' → Reach nodes r'

scheduled_from :
    (prepare : Preparing) (names : List String) (r r' : Request) (n : String)
    → schedule_successors prepare names r ≡ ok r'
    → member n r'.scheduled_nodes ≡ true
    → (member n r.scheduled_nodes || member n names) ≡ true
unfolding schedule_successors member
scheduled_from prepare [] r r' n e h = let h' = rw (ok-injective (sym e)) at h in ground arith
scheduled_from prepare (name ∷ names) r r' n e h =
    let (_, e') = require-eq-ok (member name r.tasks) key_error e in
    let (r₁, first, rest) = >>=-eq-ok (schedule_if_ready prepare r name) _ e' in
    let later = scheduled_from prepare names r₁ r' n rest h in
    let later' = rw (schedule_if_ready-ok prepare r r₁ name first) at later in
    ground (arith, one_from r name n)

-- The states of a run: tracked, with no node completed that was not scheduled, none scheduled that
-- is no task, and none counted twice.
pub record IsRunning (nodes : List WorkflowNode) (r : Request) : Type 0 where
  pub tracked : IsTracked r
  pub tasks : r.tasks ≡ node_names nodes
  pub waits : r.node_non_lazy_prerequisites ≡ waits_for nodes
  pub scheduled : IsSubset r.scheduled_nodes r.tasks
  pub completed : IsSubset r.completed_nodes r.scheduled_nodes
  pub counted : Distinct r.completed_nodes

IsRunning-start :
    (prepare : Preparing) (nodes : List WorkflowNode) (r : Request)
    → start_request prepare nodes ≡ ok r
    → IsRunning nodes r
unfolding member
IsRunning-start prepare nodes r e =
    let s = start_request-IsStarted prepare nodes r e in
    record {
      tracked = s.tracked;
      tasks = s.tasks;
      waits = s.waits;
      scheduled = s.scheduled;
      completed = λ n h. let h' = rw s.completed at h in cc;
      counted = rw s.completed tt;
    }

IsRunning-step :
    (nodes : List WorkflowNode) (r r' : Request)
    → IsRunning nodes r
    → Step r r'
    → IsRunning nodes r'
unfolding mark_node_completed
IsRunning-step nodes r r' s (Step.finish prepare name queued e) =
    let done = mark_node_completed-IsCompletion prepare r r' name s.tracked e in
    let started : member name r.scheduled_nodes ≡ true = rw s.tracked.sound.queue at queued in
    record {
      tracked = done.tracked;
      tasks = done.tasks ∙ s.tasks;
      waits = done.non_lazy ∙ s.waits;
      scheduled = λ n h.
          let from = scheduled_from prepare (get_set name r.node_successors) _ r' n e h in
          rw done.tasks (ground (arith, s.scheduled n, s.tracked.known name n));
      completed = λ n h.
          let from = sym (member-add name n r.completed_nodes) ∙ (rw done.completed at h) in
          ground (arith, string_eq.beq_iff name n, done.keeps n, s.completed n, started);
      counted = rw done.completed (Distinct-add name r.completed_nodes s.counted);
    }

-- Whatever the order of the completions, the invariant holds: no task was put on the queue before
-- the nodes it waits for were completed, none was put there twice, and none that could start was
-- left out.
pub Reach-IsRunning : (nodes : List WorkflowNode) (r : Request) → Reach nodes r → IsRunning nodes r
Reach-IsRunning nodes r (Reach.start prepare e) = IsRunning-start prepare nodes r e
Reach-IsRunning nodes r (Reach.more {r = q} before s) =
    IsRunning-step nodes q r (Reach-IsRunning nodes q before) s
