-- ===== src/Ddl.antt =====
-- ddl.go: DDL statements to `DDLActions` and `Tables`. `Contexts` has the parts of the parse tree,
-- `ColumnName` the comparison of column names, `Constraints` and `Create` are CREATE TABLE, and
-- `Statements` holds the other statements.
pub mod Contexts
pub mod ColumnName
pub mod Constraints
pub mod Create
pub mod Statements
pub mod Alter
pub mod Frame
