-- ===== src/Worker.antt =====
-- diflow/backend/worker.py: the models that a worker keeps in CPU and GPU memory, the patches on
-- them, and the inputs of the tasks that it is sent.
pub mod Models
pub mod Patches
pub mod Inputs
pub mod InputExamples
pub mod Examples
