-- ===== src/Tests.antt =====
-- Runs of the theorems at concrete inputs.
pub mod Setup
mod Preprocess
mod Names
mod Ddl
mod Comment
mod Entry
mod Joins
mod SetOps
pub mod Trees
mod Usage
mod Select
mod Dml
mod Nested
mod Analysis
