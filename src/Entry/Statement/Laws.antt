-- ===== src/Entry/Statement/Laws.antt =====
-- What the parse of a DDL statement gives.
use postgresparser.Prelude.{arith, ◌≡◌, refl, Bool, true, false, List, Text}
use postgresparser.Strings.{Unicode}
use postgresparser.Errors.{Result, ok, err, ◌>>=◌}
use postgresparser.Ir.{QueryFields, TableRef, DdlAction, ParsedQuery, ddl}
use postgresparser.Tree.{TokenStream}
use postgresparser.Ddl.Frame.{
  Adds, create_table-Adds, drop_stmt-Adds, alter_table-Adds, create_index-Adds, truncate-Adds,
}
use postgresparser.Comment.Frame.{comment_stmt-Adds}
use postgresparser.Entry.Parameters.{LexerToken, extract_parameters}
use postgresparser.Entry.Statement.{
  Builders, Stmt, Body, select_stmt, insert_stmt, update_stmt, delete_stmt, merge_stmt, create_stmt,
  drop_stmt, alter_table_stmt, index_stmt, truncate_stmt, comment_stmt, other, ParseOptions,
  new_fields, flat, flat_result, set_parameters, with_parameters, populate, parse_statement_to_ir,
}

-- The statements of the six DDL cases.
unfoldable pub is_ddl : {b : Builders} → Body b → Bool
is_ddl (create_stmt ctx) = true
is_ddl (drop_stmt ctx) = true
is_ddl (alter_table_stmt ctx) = true
is_ddl (index_stmt ctx) = true
is_ddl (truncate_stmt ctx) = true
is_ddl (comment_stmt ctx) = true
is_ddl _ = false

module _ ⦃u : Unicode⦄ (b : Builders) (lexer : Text → List LexerToken) (tokens : TokenStream)
    (opts : ParseOptions) where
  -- A query of which only the tables, the actions and the parameters are set.
  unfoldable pub DdlQuery : Text → Result ParsedQuery → Type 0
  DdlQuery raw r =
      (tables : List TableRef) × (actions : List DdlAction) × (r
        ≡ ok (
            flat (record (new_fields ddl raw) {
              tables = tables;
              ddl_actions = actions;
              parameters = extract_parameters lexer raw;
            })))

  ddl_query :
      (raw : Text) (r : Result QueryFields)
      → Adds (new_fields ddl raw) r
      → DdlQuery raw (flat_result r >>= λ q. ok (set_parameters lexer raw q))
  unfolding DdlQuery flat_result set_parameters new_fields
  ddl_query raw (err e) h = elim h [ ]
  ddl_query raw (ok fields) h = (h.tables, h.actions, rw h.rest_same refl)

  parse_ddl :
      (body : Body b) (raw : Text)
      → is_ddl body ≡ true
      → DdlQuery raw
          (with_parameters b lexer tokens opts raw body (populate b lexer tokens opts raw body))
  unfolding with_parameters populate is_ddl
  parse_ddl (create_stmt ctx) raw d =
      ddl_query raw _
        (create_table-Adds tokens (new_fields ddl raw) opts.include_create_table_field_comments ctx)
  parse_ddl (drop_stmt ctx) raw d = ddl_query raw _ (drop_stmt-Adds tokens (new_fields ddl raw) ctx)
  parse_ddl (alter_table_stmt ctx) raw d =
      ddl_query raw _ (alter_table-Adds tokens (new_fields ddl raw) ctx)
  parse_ddl (index_stmt ctx) raw d =
      ddl_query raw _ (create_index-Adds tokens (new_fields ddl raw) ctx)
  parse_ddl (truncate_stmt ctx) raw d =
      ddl_query raw _ (truncate-Adds tokens (new_fields ddl raw) ctx)
  parse_ddl (comment_stmt ctx) raw d =
      ddl_query raw _ (comment_stmt-Adds tokens (new_fields ddl raw) ctx)
  parse_ddl (select_stmt ctx) raw d = ground arith
  parse_ddl (insert_stmt ctx) raw d = ground arith
  parse_ddl (update_stmt ctx) raw d = ground arith
  parse_ddl (delete_stmt ctx) raw d = ground arith
  parse_ddl (merge_stmt ctx) raw d = ground arith
  parse_ddl other raw d = ground arith

  -- The parse of a CREATE TABLE, DROP, ALTER TABLE, CREATE INDEX, TRUNCATE or COMMENT statement
  -- never fails; the command of its query is DDL, its text is the trimmed text of the statement, its
  -- parameters are those of the text, and besides them only the tables and the actions are set.
  pub parse_statement_to_ir-ddl :
      (stmt : Stmt b) (raw : Text)
      → is_ddl stmt.body ≡ true
      → DdlQuery raw (parse_statement_to_ir b lexer tokens opts stmt raw)
  unfolding parse_statement_to_ir
  parse_statement_to_ir-ddl stmt raw d = parse_ddl stmt.body raw d
