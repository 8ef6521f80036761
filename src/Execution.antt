-- ===== src/Execution.antt =====
-- execution/: a plan, the two passes over its tests, and the report of the run.
pub mod Report
pub mod Outcomes
pub mod World
pub mod Validation
pub mod Running
pub mod Engine
mod Examples
