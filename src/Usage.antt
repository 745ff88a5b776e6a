-- ===== src/Usage.antt =====
-- The column usage helpers of helpers.go, and helpers_comparison.go.
pub mod Collectors
pub mod Operator
pub mod Record
pub mod Using
pub mod Comparison
