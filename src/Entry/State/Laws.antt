-- ===== src/Entry/State/Laws.antt =====
-- One statement, strictly or not.
use postgresparser.Prelude.{
  ℕ, ◌<◌, ◌≤◌, ◌≡◌, refl, true, false, Bool-cases, inl, inr, ◌⊎◌, List, [], ◌∷◌, length, Text, ltb,
  arith, Option, some, none,
}
use postgresparser.Strings.{Unicode}
use postgresparser.Errors.{multiple_statements, ok, err, ◌>>=◌}
use postgresparser.Preprocess.{preprocess}
use postgresparser.Entry.Parameters.{LexerToken}
use postgresparser.Entry.Statement.{Builders, Stmt, ParseOptions, parse_statement_to_ir}
use postgresparser.Entry.State.{
  Parse, ParseState, stmts_of, has_errors, state_of, recovered_state, prepare_parse_state,
  parse_first, strict_first, parse_sql, parse_sql_strict,
}

-- The number of statements that the parser recovered.
pub statement_count : {b : Builders} → Option (Option (List (Stmt b))) → ℕ
statement_count none = 0
statement_count (some none) = 0
statement_count (some (some ss)) = length ss

module _ ⦃u : Unicode⦄ (b : Builders) (lexer : Text → List LexerToken)
    (parse : Text → Parse b) where
  -- Errors do not stop a batch that has statements.
  pub prepare_parse_state-recovered :
      (sql : Text) (s : Stmt b) (ss : List (Stmt b))
      → (parse (preprocess sql)).stmtblock ≡ some (some (s ∷ ss))
      → prepare_parse_state b lexer parse sql true
        ≡ ok (record {
          clean_sql = preprocess sql;
          stream = (parse (preprocess sql)).stream;
          first = s;
          others = ss;
          syntax_errors = (parse (preprocess sql)).errors;
        })
  unfolding prepare_parse_state recovered_state state_of
  prepare_parse_state-recovered sql s ss h = simp h

  -- Without syntax errors, the parse of one statement gives the query of the first statement with
  -- the whole preprocessed text, whatever statements follow.
  pub parse_sql_first :
      (sql : Text) (opts : ParseOptions) (s : Stmt b) (ss : List (Stmt b))
      → (parse (preprocess sql)).errors ≡ []
      → (parse (preprocess sql)).stmtblock ≡ some (some (s ∷ ss))
      → parse_sql b lexer parse sql opts
        ≡ parse_statement_to_ir b lexer (parse (preprocess sql)).stream opts s (preprocess sql)
  unfolding parse_sql prepare_parse_state recovered_state has_errors state_of parse_first
  parse_sql_first sql opts s ss clean h = simp (clean, h)

  strict_state :
      (opts : ParseOptions) (state : ParseState b)
      → ((length (stmts_of state) ≤ 1)
          × (strict_first b lexer parse opts state ≡ parse_first b lexer parse opts state))
        ⊎ ((1 < length (stmts_of state))
            × (strict_first b lexer parse opts state
                ≡ err (multiple_statements (length (stmts_of state)))))
  unfolding strict_first
  strict_state opts state = elim (Bool-cases (ltb 1 (length (stmts_of state)))) [
    | inl t ↦ inr (ground arith, rw t refl)
    | inr f ↦ inl (ground arith, rw f refl)
  ]

  strict_cases :
      (opts : ParseOptions) (clean : Text) (p : Parse b) (block : Option (Option (List (Stmt b))))
      → ((statement_count block ≤ 1)
          × ((state_of clean false p block >>= strict_first b lexer parse opts)
              ≡ (state_of clean false p block >>= parse_first b lexer parse opts)))
        ⊎ ((1 < statement_count block)
            × ((state_of clean false p block >>= strict_first b lexer parse opts)
                ≡ err (multiple_statements (statement_count block))))
  unfolding statement_count state_of
  strict_cases opts clean p none = inl (omega arith, refl)
  strict_cases opts clean p (some none) = inl (omega arith, refl)
  strict_cases opts clean p (some (some [])) = inl (omega arith, refl)
  strict_cases opts clean p (some (some (s ∷ ss))) =
      strict_state opts (record {
        clean_sql = clean;
        stream = p.stream;
        first = s;
        others = ss;
        syntax_errors = [];
      })

  -- Without syntax errors, a strict parse gives what a parse of the first statement gives if the
  -- parser recovered at most one statement, and the error with the number of statements if it
  -- recovered more.
  pub parse_sql_strict-cases :
      (sql : Text) (opts : ParseOptions)
      → (parse (preprocess sql)).errors ≡ []
      → ((statement_count (parse (preprocess sql)).stmtblock ≤ 1)
          × (parse_sql_strict b lexer parse sql opts ≡ parse_sql b lexer parse sql opts))
        ⊎ ((1 < statement_count (parse (preprocess sql)).stmtblock)
            × (parse_sql_strict b lexer parse sql opts
                ≡ err (multiple_statements (statement_count (parse (preprocess sql)).stmtblock))))
  unfolding parse_sql parse_sql_strict prepare_parse_state recovered_state has_errors
  parse_sql_strict-cases sql opts clean = simp clean (
      strict_cases opts (preprocess sql) (parse (preprocess sql))
        (parse (preprocess sql)).stmtblock)
