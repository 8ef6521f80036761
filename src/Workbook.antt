-- ===== src/Workbook.antt =====
-- workbook/: what a workbook says of a run, read into records.
pub mod Definitions
pub mod Observations
pub mod Control
pub mod Cells
pub mod RowChecks
pub mod TestCases
mod Examples
