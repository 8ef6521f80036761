-- ===== src/Evaluation.antt =====
-- evaluation/: what a scalar is, how it is read as its declared type, and how values are compared.
pub mod Decimal
pub mod Values
pub mod Normalization
pub mod Comparisons
mod Examples
