-- ===== src/Profile.antt =====
-- profile.py: the file that answers the questions of a run, and what it must not hold.
pub mod Toml
pub mod Keys
pub mod Connection
pub mod Document
pub mod Examples
