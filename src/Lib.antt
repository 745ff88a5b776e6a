-- ===== src/Lib.antt =====
-- A verification library for postgresparser, a Go library that parses PostgreSQL scripts into an
-- intermediate representation.
--
-- The program: `preprocessSQLInput` (preprocess.go) cuts `//` comments and trims the script; the
-- ANTLR lexer and parser (gen/) give a token stream, syntax errors and one context for each
-- statement; entry.go turns each statement into a `ParsedQuery` (ir.go), with one builder for each
-- kind of statement (ddl.go and ddl_comment.go for DDL), one statement at a time or as a batch.
--
-- The model:
--   Prelude      lists, texts, tests, association lists and the removal of duplicates
--   Strings      the functions of Go's `strings`, `unicode` and `strconv` that the code calls
--   Preprocess   preprocess.go; the loop over the runes of a line is `strip`, whose count of runes to
--                skip stands for the steps of the index `i`
--   Names        `splitQuotedDot`, `splitQualifiedName`, `columnRefFromParts` (helpers.go),
--                `splitQualifiedColumnName` (ddl_comment.go) and internal/ident/quotes.go
--   Ir, Errors   the types of ir.go, and errors.go with `Result` for a value or an error
--   Tree         `ctxText` and `contextText`, on contexts that are known by their tokens
--   Ddl          ddl.go: Contexts (what the code reads of the parse tree), ColumnName, Constraints,
--                Create, Statements (DROP, CREATE INDEX, TRUNCATE), Alter, and Frame
--   Comment      `populateCommentStmt` and the decoding of literals (ddl_comment.go)
--   Entry        entry.go and `extractParameters` (helpers.go): Parameters, Statement, Locate, State
--                and Batch
--   Syntax       parse trees as ANTLR hands them out, with the accessors of the contexts and its walker
--   Query        updates of a `*ParsedQuery`, and what it means that a query has grown
--   Usage        the collectors and the usage records of helpers.go, and helpers_comparison.go
--   Select       select.go and setops.go: Meaning (the resolution of a select), Lateral, JoinMeta, From,
--                Projection, Clauses, Branches (set operations), Cte, and Populate
--   Dml          dml_common.go (Targets), dml_insert.go, dml_update.go, dml_delete.go and merge.go
--   Nested       `parsePreparableStmtToIR`, the meanings of nested selects and statements, and the
--                builders that Entry takes
--   SetOps       `appendSetOpTables` and `tableKey` (setops.go)
--   Analysis     Joins: the alias map, the column references and the direction of a relationship of
--                analysis/join_parser.go; Returning: `normalizeReturning`; Helpers: analysis/helpers.go
--   Tests        the theorems at concrete inputs
--
-- Texts are lists of code points: scripts are taken to be valid UTF-8, and the code cuts them at
-- ASCII characters only, but for `extractDeleteConditionFromText` (Dml.Merge). The zero value of a
-- table's type is `no_type`, a nil pointer is `none`, a nil slice is the empty list, and the -1 of
-- an index is `none`. A builder that appends to the fields of `*ParsedQuery` is a function from
-- the query to a query. Loops are structural recursions; the one use of fuel, `digits` for the
-- verb `%d`, takes one more than the number itself, which is more than it has digits.
--
-- The code goes down into a nested select with parentheses and into the body of a CTE by calling
-- itself. A tree of Select and Dml carries at each such context its meaning: the query of
-- `buildSubqueryRef` or `parsePreparableStmtToIR`, the set operations, and the projection.
-- `Nested.annotate` computes the meanings from the leaves up, so that every function is structural.
--
-- Parameters: `Unicode` (the tables of Go's `unicode`, with what they are at ASCII characters), the
-- lexer and the parser of entry.go (any functions from a text), `TokenStream`, and in Entry `Builders`
-- (the builders of SELECT, INSERT, UPDATE, DELETE and MERGE, which Nested fills). Every context that the
-- grammar's code makes is an `antlr.ParserRuleContext`, so the type assertions of the code hold.
--
-- Not modelled: in the package analysis, the conversion of the types, which have the same fields, the
-- WHERE conditions, `SortColumnUsage` and the extraction of relationships from conditions, which use
-- regular expressions, a sort that is not stable and the order of a map; the texts of errors; gen/ and
-- grammar/, which ANTLR generates or reads; the examples and the benchmarks, which call the library.
pub mod Prelude
pub mod Strings
pub mod Preprocess
pub mod Names
pub mod Ir
pub mod Errors
pub mod Tree
pub mod Ddl
pub mod Comment
pub mod Entry
pub mod Syntax
pub mod Usage
pub mod Query
pub mod Select
pub mod Dml
pub mod Nested
pub mod SetOps
pub mod Analysis
mod Tests
