-- ===== src/Entry.antt =====
-- entry.go: from the text of a script to queries, one statement or a batch.
pub mod Parameters
pub mod Statement
pub mod Locate
pub mod State
pub mod Batch
