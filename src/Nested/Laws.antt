-- ===== src/Nested/Laws.antt =====
-- The command and the text of every query that the parse of a statement gives.
use postgresparser.Prelude.{◌≡◌, refl, true, Bool-cases, inl, inr, Option, List, Text, ℕ}
use postgresparser.Strings.{Unicode, trim_space}
use postgresparser.Errors.{Result, ok, err, ◌>>=◌}
use postgresparser.Ir.{
  QueryCommand, select, insert, update, delete, merge, ddl, unknown, ParsedQuery, parsed,
}
use postgresparser.Tree.{TokenStream}
use postgresparser.Query.{fields}
use postgresparser.Query.Grown.{GrownResult, Grown, Grown-refl}
use postgresparser.Entry.Parameters.{LexerToken}
use postgresparser.Entry.Statement.{
  Token, Stmt, Body, select_stmt, insert_stmt, update_stmt, delete_stmt, merge_stmt, create_stmt,
  drop_stmt, alter_table_stmt, index_stmt, truncate_stmt, comment_stmt, other, ParseOptions,
  new_fields, new_parsed_query, set_parameters, populate, with_parameters, parse_statement_to_ir,
}
use postgresparser.Entry.Statement.Laws.{DdlQuery, is_ddl, parse_statement_to_ir-ddl}
use postgresparser.Syntax.{Tree, Trees, terminal, rule, leaf, branch, is_rule}
use postgresparser.Syntax.Rules.{Rule, select_with_parens, preparablestmt}
use postgresparser.Select.Meaning.{Context, Meaning, no_meaning}
use postgresparser.Select.Meaning.Sound.{Sound, AllSound, Growing}
use postgresparser.Select.Populate.Laws.{populate_select-Grown, parens_meaning-Growing}
use postgresparser.Dml.{populate_update, populate_delete}
use postgresparser.Dml.Merge.{populate_merge}
use postgresparser.Dml.Laws.{populate_update-Grown, populate_delete-Grown}
use postgresparser.Dml.Insert.Laws.{populate_insert-Grown}
use postgresparser.Dml.Merge.Laws.{populate_merge-Grown}
use postgresparser.Nested.{meaning_of, annotated, annotate, annotate_all, builders}

no_meaning-Growing : Growing no_meaning
unfolding Growing no_meaning
no_meaning-Growing q = Grown-refl q

module _ ⦃u : Unicode⦄ (lexer : Text → List LexerToken) (tokens : TokenStream) where
  meaning_of-Growing : (c : Context) → Sound c → Growing (meaning_of lexer tokens c)
  unfolding meaning_of
  meaning_of-Growing c h = elim (Bool-cases (is_rule select_with_parens c)) [
    | inl e ↦ rw e (parens_meaning-Growing tokens c h)
    | inr e ↦ elim (Bool-cases (is_rule preparablestmt c)) [
      | inl f ↦ rw (e, f) (unfold Growing in λ q. Grown-refl q)
      | inr f ↦ rw (e, f) no_meaning-Growing
    ]
  ]

  annotated-Sound :
      (r : Rule) (i j : Option ℕ) (cs : Trees Meaning)
      → AllSound cs
      → Sound (annotated lexer tokens r i j cs)
  unfolding annotated Sound
  annotated-Sound r i j cs h =
      (meaning_of-Growing (rule r i j no_meaning cs) (no_meaning-Growing, h), h)

  mutual
    unfolding annotate annotate_all Sound AllSound

    annotate-Sound : (t : Tree Unit) → Sound (annotate lexer tokens t)
    annotate-Sound (terminal t s) = tt
    annotate-Sound (rule r i j a cs) = annotated-Sound r i j _ (annotate_all-Sound cs)

    annotate_all-Sound : (ts : Trees Unit) → AllSound (annotate_all lexer tokens ts)
    annotate_all-Sound leaf = tt
    annotate_all-Sound (branch c cs) = (annotate-Sound c, annotate_all-Sound cs)

  -- The command of a statement.
  pub command_of : Body (builders lexer) → QueryCommand
  command_of (select_stmt ctx) = select
  command_of (insert_stmt ctx) = insert
  command_of (update_stmt ctx) = update
  command_of (delete_stmt ctx) = delete
  command_of (merge_stmt ctx) = merge
  command_of (create_stmt ctx) = ddl
  command_of (drop_stmt ctx) = ddl
  command_of (alter_table_stmt ctx) = ddl
  command_of (index_stmt ctx) = ddl
  command_of (truncate_stmt ctx) = ddl
  command_of (comment_stmt ctx) = ddl
  command_of other = unknown

  -- The command and the text, where there is a query.
  pub Headed : QueryCommand → Text → Result ParsedQuery → Type 0
  Headed command raw (ok q) = ((fields q).command ≡ command) × ((fields q).raw_sql ≡ trim_space raw)
  Headed command raw (err e) = Unit

  Headed-grown :
      (command : QueryCommand) (raw : Text) (r : Result ParsedQuery)
      → GrownResult (new_parsed_query command raw) r
      → Headed command raw (r >>= λ q. ok (set_parameters lexer raw q))
  unfolding Headed GrownResult Grown fields set_parameters new_parsed_query
  Headed-grown command raw (ok (parsed k subs ctes m)) h = (h.same_command, h.same_text)
  Headed-grown command raw (err e) h = tt

  Headed-unknown : (raw : Text) → Headed unknown raw (ok (new_parsed_query unknown raw))
  unfolding Headed fields new_parsed_query
  Headed-unknown raw = (refl, refl)

  Headed-ddl :
      (opts : ParseOptions) (raw : Text) (r : Result ParsedQuery)
      → DdlQuery (builders lexer) lexer tokens opts raw r
      → Headed ddl raw r
  unfolding Headed DdlQuery fields new_fields
  Headed-ddl opts raw r h = rw (h.2) (refl, refl)

  Headed-stmt :
      (opts : ParseOptions) (start stop : Option Token) (body : Body (builders lexer)) (raw : Text)
      → is_ddl body ≡ true
      → Headed ddl raw (
          parse_statement_to_ir
            (builders lexer)
            lexer
            tokens
            opts
            (record { start = start; stop = stop; body = body })
            raw)
  Headed-stmt opts i j body raw d =
      Headed-ddl opts raw _ (parse_statement_to_ir-ddl (builders lexer) lexer tokens opts _ raw d)

  Headed-body :
      (opts : ParseOptions) (start stop : Option Token) (body : Body (builders lexer)) (raw : Text)
      → Headed (command_of body) raw (
          parse_statement_to_ir
            (builders lexer)
            lexer
            tokens
            opts
            (record { start = start; stop = stop; body = body })
            raw)
  unfolding parse_statement_to_ir populate with_parameters builders command_of is_ddl GrownResult
  Headed-body opts i j (select_stmt ctx) raw =
      Headed-grown select raw _
        (populate_select-Grown tokens _ (annotate lexer tokens ctx) (annotate-Sound ctx))
  Headed-body opts i j (insert_stmt ctx) raw =
      Headed-grown insert raw _
        (populate_insert-Grown tokens _ (annotate lexer tokens ctx) (annotate-Sound ctx))
  Headed-body opts i j (update_stmt ctx) raw =
      Headed-grown update raw
        (ok (populate_update tokens (new_parsed_query update raw) (annotate lexer tokens ctx)))
        (populate_update-Grown tokens (new_parsed_query update raw) (annotate lexer tokens ctx))
  Headed-body opts i j (delete_stmt ctx) raw =
      Headed-grown delete raw
        (ok (populate_delete tokens (new_parsed_query delete raw) (annotate lexer tokens ctx)))
        (populate_delete-Grown tokens (new_parsed_query delete raw) (annotate lexer tokens ctx))
  Headed-body opts i j (merge_stmt ctx) raw =
      Headed-grown merge raw
        (ok (populate_merge tokens (new_parsed_query merge raw) (annotate lexer tokens ctx)))
        (populate_merge-Grown tokens (new_parsed_query merge raw) (annotate lexer tokens ctx))
  Headed-body opts i j (create_stmt ctx) raw = Headed-stmt opts i j (create_stmt ctx) raw refl
  Headed-body opts i j (drop_stmt ctx) raw = Headed-stmt opts i j (drop_stmt ctx) raw refl
  Headed-body opts i j (alter_table_stmt ctx) raw =
      Headed-stmt opts i j (alter_table_stmt ctx) raw refl
  Headed-body opts i j (index_stmt ctx) raw = Headed-stmt opts i j (index_stmt ctx) raw refl
  Headed-body opts i j (truncate_stmt ctx) raw = Headed-stmt opts i j (truncate_stmt ctx) raw refl
  Headed-body opts i j (comment_stmt ctx) raw = Headed-stmt opts i j (comment_stmt ctx) raw refl
  Headed-body opts i j other raw = Headed-unknown raw

  -- Whatever the statement and its tree, with the builders of all kinds of statements put together,
  -- the parse of a statement fails or gives a query whose command is that of the kind of the
  -- statement and whose text is the trimmed text of the statement; no builder, WITH clause, subquery
  -- or set operation changes either.
  pub parse_statement_to_ir-Headed :
      (opts : ParseOptions) (stmt : Stmt (builders lexer)) (raw : Text)
      → Headed
          (command_of stmt.body)
          raw
          (parse_statement_to_ir (builders lexer) lexer tokens opts stmt raw)
  parse_statement_to_ir-Headed opts stmt raw = Headed-body opts stmt.start stmt.stop stmt.body raw
