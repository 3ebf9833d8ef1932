-- ===== src/SchedulingCore.antt =====
-- diflow/backend/scheduler/scheduling_core.py: the stateful core of the dynamic scheduler, in its
-- Python backend. Children: the measured profiles, the description of a task, the cost of a task
-- on a worker, the core's state and operations, and what is proved of each.
pub mod Profile
pub mod Task
pub mod Cost
pub mod State
pub mod Examples
