-- ===== src/Tests/Entry.antt =====
-- A script of two statements, with a syntax error and with parameters.
use postgresparser.Prelude.{
  ℕ, ◌<◌, ◌≤◌, ◌≡◌, ◌↔◌, refl, true, false, ◌⊎◌, some, List, [], ◌∷◌, ◌++◌, map, length, get_elem?,
  keep, Text, codes, arith,
}
use postgresparser.Strings.Decimal.{pos, decimal}
use postgresparser.Errors.{SyntaxError, multiple_statements, Result, ok, err}
use postgresparser.Ir.{Parameter, ParsedQuery, unknown}
use postgresparser.Preprocess.{preprocess}
use postgresparser.Entry.Parameters.{LexerToken, collect_parameters, extract_parameters}
use postgresparser.Entry.Parameters.Laws.{
  count_from, is_anonymous, extract_parameters-positions, collect_parameters-numbered,
}
use postgresparser.Entry.Statement.{
  Token, Stmt, new_parsed_query, truncate_stmt, select_stmt, ParseOptions, parse_statement_to_ir,
}
use postgresparser.Entry.Statement.Laws.{is_ddl, DdlQuery, parse_statement_to_ir-ddl}
use postgresparser.Entry.Locate.{statement_token_bounds, in_bounds, statement_index}
use postgresparser.Entry.Locate.Laws.{statement_index_token}
use postgresparser.Entry.State.{Parse, parse_sql, parse_sql_strict}
use postgresparser.Entry.State.Accepts.{Gives, parse_sql_accepts}
use postgresparser.Entry.State.Laws.{statement_count, parse_sql_strict-cases}
use postgresparser.Entry.Batch.{ParseBatchResult, syntax_warning, parse_sql_all}
use postgresparser.Entry.Batch.Laws.{
  located_at, warnings_of, core, all_alone, parse_sql_all-core, parse_sql_all-located,
}
use postgresparser.Tests.Setup.{ascii, stream, truncate_two, plain_builders}

abbrev token : ℕ → ℕ → Token
token i line = record { index = some i; line = line }

abbrev first_stmt : Stmt plain_builders
first_stmt = record {
  start = some (token 0 1);
  stop = some (token 2 1);
  body = truncate_stmt truncate_two;
}

abbrev second_stmt : Stmt plain_builders
second_stmt = record { start = some (token 4 2); stop = some (token 6 3); body = select_stmt tt }

abbrev unexpected : SyntaxError
unexpected = record { line = 2; column = 7; message = codes "unexpected"; token_index = some 5 }

abbrev script : Text
script = codes "TRUNCATE public.users, orders; SELECT ?"

-- The parse of each text: the two statements, with those errors.
abbrev parse_with : List SyntaxError → Text → Parse plain_builders
parse_with errors sql = record {
  stream = stream;
  errors = errors;
  stmtblock = some (some (first_stmt ∷ second_stmt ∷ []));
}

-- The tokens of `SELECT ? WHERE a = $2 AND b = ?`
abbrev lexer : Text → List LexerToken
lexer sql =
    record { is_param = false; text = codes "SELECT" }
    ∷ record { is_param = true; text = codes "?" }
    ∷ record { is_param = true; text = codes "$2" }
    ∷ record { is_param = true; text = codes "?" }
    ∷ []

abbrev options : ParseOptions
options = record { include_create_table_field_comments = false }

extract_parameters-positions_example :
    map (λ (p : Parameter). p.position) (keep is_anonymous (extract_parameters lexer script))
    ≡ count_from 1 (keep is_anonymous (extract_parameters lexer script))
extract_parameters-positions_example = extract_parameters-positions lexer script

collect_parameters-numbered_example :
    collect_parameters 1 (record { is_param = true; text = codes "$" ++ decimal 12 } ∷ lexer script)
    ≡ record { raw = codes "$" ++ decimal 12; marker = codes "$"; position = pos 12 }
      ∷ collect_parameters 1 (lexer script)
collect_parameters-numbered_example = collect_parameters-numbered 1 12 (lexer script) (omega arith)

parse_statement_to_ir-ddl_example :
    DdlQuery plain_builders lexer stream options script
      (parse_statement_to_ir plain_builders lexer stream options first_stmt script)
parse_statement_to_ir-ddl_example =
    parse_statement_to_ir-ddl plain_builders lexer stream options first_stmt script
      (unfold is_ddl in refl)

first_lacks : in_bounds (statement_token_bounds first_stmt) 5 ≡ false
unfolding in_bounds statement_token_bounds
first_lacks = refl

second_holds : in_bounds (statement_token_bounds second_stmt) 5 ≡ true
unfolding in_bounds statement_token_bounds
second_holds = refl

second_located : statement_index (first_stmt ∷ second_stmt ∷ []) unexpected ≡ some 1
second_located =
    statement_index_token (first_stmt ∷ []) [] second_stmt unexpected 5 refl (first_lacks, tt)
      second_holds

statement_index_token_example :
    statement_index ((first_stmt ∷ []) ++ second_stmt ∷ []) unexpected
    ≡ some (length (first_stmt ∷ []))
statement_index_token_example =
    statement_index_token (first_stmt ∷ []) [] second_stmt unexpected 5 refl (first_lacks, tt)
      second_holds

-- What the script of two statements gives.
abbrev query_of : Result ParsedQuery → ParsedQuery
query_of (ok q) = q
query_of (err e) = new_parsed_query unknown []

abbrev script_query : ParsedQuery
script_query =
    query_of
      (parse_statement_to_ir plain_builders lexer stream options first_stmt (preprocess script))

parse_sql_accepts_example :
    ((parse_sql plain_builders lexer (parse_with []) script options ≡ ok script_query)
      ↔ ((parse_with [] (preprocess script)).errors ≡ [])
        × (s : Stmt plain_builders) × (ss : List (Stmt plain_builders)) × ((parse_with []
              (preprocess script)).stmtblock
            ≡ some (some (s ∷ ss)))
        × Gives plain_builders lexer (parse_with []) script options script_query s)
    × ((parse_sql_strict plain_builders lexer (parse_with []) script options ≡ ok script_query)
        ↔ ((parse_with [] (preprocess script)).errors ≡ [])
          × (s : Stmt plain_builders) × ((parse_with [] (preprocess script)).stmtblock
              ≡ some (some (s ∷ [])))
          × Gives plain_builders lexer (parse_with []) script options script_query s)
parse_sql_accepts_example =
    parse_sql_accepts plain_builders lexer (parse_with []) script options script_query

parse_sql_strict-cases_example :
    ((statement_count (parse_with [] (preprocess script)).stmtblock ≤ 1)
      × (parse_sql_strict plain_builders lexer (parse_with []) script options
          ≡ parse_sql plain_builders lexer (parse_with []) script options))
    ⊎ ((1 < statement_count (parse_with [] (preprocess script)).stmtblock)
        × (parse_sql_strict plain_builders lexer (parse_with []) script options
            ≡ err (
                multiple_statements
                  (statement_count (parse_with [] (preprocess script)).stmtblock))))
parse_sql_strict-cases_example =
    parse_sql_strict-cases plain_builders lexer (parse_with []) script options refl

parse_sql_all-core_example :
    (r : ParseBatchResult) × (parse_sql_all plain_builders lexer
        (parse_with (unexpected ∷ []))
        script
        options
      ≡ ok r)
    × (map core r.statements
        ≡ all_alone plain_builders lexer stream options 1 (first_stmt ∷ second_stmt ∷ []))
    × ((i : ℕ)
        → i < length (first_stmt ∷ second_stmt ∷ [])
        → get_elem? (warnings_of r.statements) i
          ≡ some (
              map syntax_warning
                (keep (located_at (first_stmt ∷ second_stmt ∷ []) i) (unexpected ∷ []))))
parse_sql_all-core_example =
    parse_sql_all-core plain_builders lexer (parse_with (unexpected ∷ [])) script options first_stmt
      (second_stmt ∷ []) refl

parse_sql_all-located_example :
    (r : ParseBatchResult) × (parse_sql_all plain_builders lexer
        (parse_with (unexpected ∷ []))
        script
        options
      ≡ ok r)
    × (r.has_failures ≡ true)
parse_sql_all-located_example =
    parse_sql_all-located plain_builders lexer (parse_with (unexpected ∷ [])) script options
      first_stmt (second_stmt ∷ []) [] [] unexpected 1 refl refl second_located
