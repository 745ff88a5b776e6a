-- ===== src/Analysis.antt =====
-- The package analysis.
pub mod Joins
pub mod Returning
pub mod Helpers
