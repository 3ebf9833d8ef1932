-- ===== src/Scheduler.antt =====
-- diflow/backend/scheduler: tasks, how ready tasks are grouped, and the scheduling policies.
pub mod Task
pub mod Grouping
pub mod Exclusive
pub mod Dynamic
pub mod Examples
pub mod DynamicExamples
