-- ===== src/Runner.antt =====
-- tools/k3/runner.py: the runs of a task.
pub mod RunId
pub mod Dirs
pub mod Adapter
pub mod Baseline
pub mod Command
pub mod Inputs
pub mod Pipeline
pub mod Plan
pub mod Completion
pub mod Evidence
mod Tests
