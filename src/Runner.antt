-- ===== src/Runner.antt =====
-- The first engine: runner.py, with its comparisons in evaluation/comparators.py and its records in
-- models.py.
pub mod Kinds
pub mod Comparators
pub mod Dialect
pub mod Records
pub mod Sides
pub mod Cases
pub mod Selection
pub mod Runs
pub mod Examples
