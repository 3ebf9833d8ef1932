-- ===== src/Lib.antt =====
-- DiFlow serves diffusion workflows: a client registers a graph of operator calls with loops and
-- branches, each request expands the graph for its inputs, a coordinator tracks which nodes can
-- run, and a scheduler groups ready tasks and picks workers for them. This library models that
-- core, from the source under diflow/.
--
-- Files, and the code they are about:
-- - Prelude: shared helpers. Dictionaries are association lists in insertion order, sets are lists
--   read through membership, code that may raise gives an Outcome with the exception's class.
-- - Latency: the time estimates of the schedulers, whole microseconds or infinity in place of the
--   seconds in floats. Rounding of floats is not modelled.
-- - SchedulingCore: diflow/backend/scheduler/scheduling_core.py. Profile has the measured profiles
--   and their lookups, Task the TaskSpec checks, Cost `_transfer_latency` and `_cost`, State the
--   operations of PythonSchedulingCore.
-- - Scheduler: Task and Grouping are `can_group_tasks` and `select_tasks_for_grouping` of
--   dynamic_scheduler.py, exclusive_scheduler.py and random_scheduler.py; Exclusive is the pairing
--   of requests and workers of ExclusiveScheduler; Dynamic numbers the hosts of the workers of
--   DynamicScheduler and builds the description of a group that its scheduling core is given;
--   Dynamic.Policy has its operations over the core, with the worker status of
--   base_scheduler.py. The number of available workers and the profiled batch limit are
--   parameters of the dynamic grouping; the clock and `random.choice` are arguments.
-- - Workflow: nodes and their inputs and outputs (diflow/interface/node_io.py, workflow_node.py).
-- - Json, Expr: the static expressions of diflow/interface/expr.py and their wire format. What
--   Python's operators do on the values of a request, which may have any type, is the record
--   `Values`, a parameter.
-- - Region: loops, branches and workflows (diflow/interface/region.py, workflow.py).
-- - Expand: diflow/interface/workflow_expand.py. The parent expands regions, Passes has the passes
--   over a workflow and Checks the invariants. The texts that `uuid4` gives are a parameter,
--   numbered by call.
-- - Dependency: diflow/backend/dependency.py, the dependency maps of an expanded workflow.
-- - Coordinator: the tracking of one request in diflow/backend/coordinator.py, from
--   `execute_workflow` through `_mark_node_completed` to `_is_request_complete`. Every task that
--   becomes ready is prepared by `_prepare_task_inputs` (`preparing`), which may raise; Fed says
--   when it does not.
--   Tensors has the reference counts and what `_update_free_tensor_dict` frees, Inputs is
--   `_prepare_task_inputs`, Placement is `_select_worker_for_task_group` with the scheduler as the
--   record `Policy`, a parameter, and Overload is `_is_system_overloaded`. Lazy has the inputs that
--   are sent after their task: what `_schedule_task_group` does for them, the tensors that
--   `_gather_result_loop` stores, and `_notify_lazy_input_available`. Ready is
--   `_prepare_ready_tasks`.
-- - Profiling: diflow/profiling/runtime_profile.py. Loading builds a profile from the entries of its
--   file; the parent has the lookups and what the scheduling core is handed, and Agreement compares
--   those lookups with the core's.
-- - Worker: diflow/backend/worker.py. Models has the models in CPU and GPU memory with the eviction
--   of the least recently used, Patches the patches on them with a record of the operators' calls,
--   Inputs how `process_task` collects the
--   inputs of a task. What torch, the operators and the data engine do is an argument.
-- - Service: the expansion and the coordinator together.
-- The modules below a component hold what is proved of it, its Examples concrete runs.
--
-- A request's state is a record with the entries that the coordinator's dictionaries hold for it;
-- an operation maps it to the next state. `Step` and `Reach` are the runs: completions of queued
-- tasks in any order, whatever the preparation of the tasks that they make ready finds, as long as
-- it returns. The scheduling core has such a relation too, over all its operations.
--
-- Bounds: `settle_all` of Expand.Checks runs on fuel, the number of nodes. Each round settles
-- another node, so that they are enough, and check_acyclic_total says so for every graph without a
-- cycle; fewer settled nodes than nodes are refused by the check that follows the loop.
-- `bit_length` halves at most as often as its argument says, which is more than enough;
-- next_power_of_2_bounds gives the result for every argument.
--
-- Not modelled: sockets, logging and timing; the computation of the node depths, which order the
-- ready tasks; the clean-up of a request that has ended; the wire format of regions and workflows;
-- `max_profiled_batch_size` and the core's `snapshot`; the files of the runtime profile and their
-- parsing; the runs of operators in the worker and the batching of tensors; the authoring of
-- workflows, which runs Python callables; the server, the benchmarks and the C++ sources.
pub mod Prelude
pub mod Latency
pub mod SchedulingCore
pub mod Json
pub mod Worker
pub mod Workflow
pub mod Expr
pub mod Region
pub mod Expand
pub mod Scheduler
pub mod Dependency
pub mod Coordinator
pub mod Profiling
pub mod Service
