-- ===== src/Select.antt =====
-- select.go and the set operations of setops.go.
pub mod Meaning
pub mod Lateral
pub mod JoinMeta
pub mod From
pub mod Projection
pub mod Clauses
pub mod Branches
pub mod Cte
pub mod Populate
