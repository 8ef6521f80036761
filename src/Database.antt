-- ===== src/Database.antt =====
-- database/: what a driver raises, and the advice that goes with it.
pub mod Failures
pub mod Settings
pub mod Causes
