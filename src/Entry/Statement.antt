-- ===== src/Entry/Statement.antt =====
-- `parseStatementToIR`, `newParsedQuery` and `statementText` of entry.go. The builders of the
-- statements that are no DDL are an interface.
pub mod Laws
use postgresparser.Prelude.{ℕ, Option, none, some, List, [], Text, Bool}
use postgresparser.Strings.{Unicode, trim_space}
use postgresparser.Errors.{Result, ok, err, ◌>>=◌}
use postgresparser.Ir.{
  QueryCommand, select, insert, update, delete, merge, ddl, unknown, QueryFields, ParsedQuery,
  parsed, no_subqueries, no_ctes, no_merge,
}
use postgresparser.Tree.{Node, TokenStream, context_text}
use postgresparser.Ddl.Contexts.{CreateStmt, DropStmt, AlterTableStmt, IndexStmt, TruncateStmt}
use postgresparser.Ddl.Create.{populate_create_table}
use postgresparser.Ddl.Statements.{populate_drop_stmt, populate_create_index, populate_truncate}
use postgresparser.Ddl.Alter.{populate_alter_table}
use postgresparser.Comment.{CommentStmt, populate_comment_stmt}
use postgresparser.Entry.Parameters.{LexerToken, extract_parameters}

-- `populateSelect`, `populateInsert`, `populateUpdate`, `populateDelete` and `populateMerge`, with
-- the contexts that they read.
pub record Builders : Type 1 where
  pub SelectStmt : Type 0
  pub InsertStmt : Type 0
  pub UpdateStmt : Type 0
  pub DeleteStmt : Type 0
  pub MergeStmt : Type 0
  pub populate_select : ParsedQuery → SelectStmt → TokenStream → Result ParsedQuery
  pub populate_insert : ParsedQuery → InsertStmt → TokenStream → Result ParsedQuery
  pub populate_update : ParsedQuery → UpdateStmt → TokenStream → Result ParsedQuery
  pub populate_delete : ParsedQuery → DeleteStmt → TokenStream → Result ParsedQuery
  pub populate_merge : ParsedQuery → MergeStmt → TokenStream → Result ParsedQuery

-- A token of the stream; the index is `none` where the code has -1.
pub record Token : Type 0 where
  pub index : Option ℕ
  pub line : ℕ

-- The alternative of the rule `stmt` that the parser took; `other` is one that the switch does not
-- name, or none.
pub data Body (b : Builders) : Type 0 where
  select_stmt : b.SelectStmt → Body b
  insert_stmt : b.InsertStmt → Body b
  update_stmt : b.UpdateStmt → Body b
  delete_stmt : b.DeleteStmt → Body b
  merge_stmt : b.MergeStmt → Body b
  create_stmt : CreateStmt → Body b
  drop_stmt : DropStmt → Body b
  alter_table_stmt : AlterTableStmt → Body b
  index_stmt : IndexStmt → Body b
  truncate_stmt : TruncateStmt → Body b
  comment_stmt : CommentStmt → Body b
  other : Body b

-- `gen.IStmtContext`
pub record Stmt (b : Builders) : Type 0 where
  pub start : Option Token
  pub stop : Option Token
  pub body : Body b

-- The `ParseOptions` of options.go.
pub record ParseOptions : Type 0 where
  pub include_create_table_field_comments : Bool

unfoldable pub new_fields : QueryCommand → Text → QueryFields
new_fields command raw = record {
  command = command;
  raw_sql = trim_space raw;
  columns = [];
  tables = [];
  column_usage = [];
  set_operations = [];
  wheres = [];
  havings = [];
  group_by = [];
  order_by = [];
  limit = none;
  join_conditions = [];
  parameters = [];
  insert_columns = [];
  set_clauses = [];
  returnings = [];
  upsert = none;
  ddl_actions = [];
  correlations = [];
  derived_columns = [];
}

-- A query of fields that holds no further query, as the DDL builders leave it.
abbrev pub flat : QueryFields → ParsedQuery
flat fields = parsed fields no_subqueries no_ctes no_merge

-- `newParsedQuery`, with the command that the switch assigns first
unfoldable pub new_parsed_query : QueryCommand → Text → ParsedQuery
unfolding new_fields
new_parsed_query command raw = flat (new_fields command raw)

unfoldable pub set_parameters : (Text → List LexerToken) → Text → ParsedQuery → ParsedQuery
set_parameters lexer raw (parsed fields subqueries ctes m) =
    parsed (record fields { parameters = extract_parameters lexer raw }) subqueries ctes m

unfoldable pub flat_result : Result QueryFields → Result ParsedQuery
flat_result (ok fields) = ok (flat fields)
flat_result (err e) = err e

module _ ⦃u : Unicode⦄ (b : Builders) (lexer : Text → List LexerToken) (tokens : TokenStream)
    (opts : ParseOptions) where
  unfoldable pub populate : Text → Body b → Result ParsedQuery
  unfolding flat_result
  populate raw (select_stmt ctx) = b.populate_select (new_parsed_query select raw) ctx tokens
  populate raw (insert_stmt ctx) = b.populate_insert (new_parsed_query insert raw) ctx tokens
  populate raw (update_stmt ctx) = b.populate_update (new_parsed_query update raw) ctx tokens
  populate raw (delete_stmt ctx) = b.populate_delete (new_parsed_query delete raw) ctx tokens
  populate raw (merge_stmt ctx) = b.populate_merge (new_parsed_query merge raw) ctx tokens
  populate raw (create_stmt ctx) = flat_result (
      populate_create_table tokens opts.include_create_table_field_comments (new_fields ddl raw)
        (some ctx))
  populate raw (drop_stmt ctx) =
      flat_result (populate_drop_stmt tokens (new_fields ddl raw) (some ctx))
  populate raw (alter_table_stmt ctx) =
      flat_result (populate_alter_table tokens (new_fields ddl raw) (some ctx))
  populate raw (index_stmt ctx) =
      flat_result (populate_create_index tokens (new_fields ddl raw) (some ctx))
  populate raw (truncate_stmt ctx) =
      flat_result (populate_truncate tokens (new_fields ddl raw) (some ctx))
  populate raw (comment_stmt ctx) =
      flat_result (populate_comment_stmt tokens (new_fields ddl raw) (some ctx))
  populate raw other = ok (new_parsed_query unknown raw)

  unfoldable pub with_parameters : Text → Body b → Result ParsedQuery → Result ParsedQuery
  with_parameters raw other r = r
  with_parameters raw body r = r >>= λ q. ok (set_parameters lexer raw q)

  -- `parseStatementToIR`
  unfoldable pub parse_statement_to_ir : Stmt b → Text → Result ParsedQuery
  unfolding populate with_parameters
  parse_statement_to_ir stmt raw = with_parameters raw stmt.body (populate raw stmt.body)

token_index : Option Token → Option ℕ
token_index none = none
token_index (some t) = t.index

-- The context of a statement, as `ctxText` reads it.
unfoldable pub stmt_node : (b : Builders) → Stmt b → Node
unfolding token_index
stmt_node b stmt = record {
  start = token_index stmt.start;
  stop = token_index stmt.stop;
  text = [];
}

-- `statementText`
unfoldable pub statement_text : (b : Builders) → TokenStream → Stmt b → Text
statement_text b tokens stmt = context_text tokens (some (stmt_node b stmt))
