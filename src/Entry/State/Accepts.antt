-- ===== src/Entry/State/Accepts.antt =====
-- When one statement is accepted, strictly or not.
use postgresparser.Prelude.{
  ◌≡◌, ◌↔◌, ap, ◌∙◌, refl, false, not, ◌&&◌, List, [], ◌∷◌, Text, arith, Option, some, none,
  if◌then◌else◌,
}
use postgresparser.Strings.{Unicode}
use postgresparser.Errors.{SyntaxError, parse_errors, Result, ok, err, ◌>>=◌}
use postgresparser.Ir.{ParsedQuery}
use postgresparser.Preprocess.{preprocess}
use postgresparser.Entry.Parameters.{LexerToken}
use postgresparser.Entry.Statement.{Builders, Stmt, ParseOptions, parse_statement_to_ir}
use postgresparser.Entry.State.{
  Parse, ParseState, has_errors, state_of, recovered_state, prepare_parse_state, parse_first,
  strict_first, parse_sql, parse_sql_strict,
}

module _ {b : Builders} where
  abbrev first_state : Text → Parse b → Stmt b → List (Stmt b) → ParseState b
  first_state clean p s ss = record {
    clean_sql = clean;
    stream = p.stream;
    first = s;
    others = ss;
    syntax_errors = [];
  }

  -- The errors and the statements of a parse that is accepted.
  abbrev IsAccepted :
      (ParseState b → Result ParsedQuery)
      → ParsedQuery
      → Text
      → Parse b
      → List SyntaxError
      → Option (Option (List (Stmt b)))
      → Type 0
  IsAccepted build q clean p errors block =
      (errors ≡ [])
      × (s : Stmt b) × (ss : List (Stmt b)) × (block ≡ some (some (s ∷ ss)))
      × (build (first_state clean p s ss) ≡ ok q)

  IsAccepted-state_of :
      (build : ParseState b → Result ParsedQuery) (q : ParsedQuery) (clean : Text) (p : Parse b)
      (block : Option (Option (List (Stmt b))))
      → (state_of clean false p block >>= build) ≡ ok q
      → IsAccepted build q clean p [] block
  unfolding state_of
  IsAccepted-state_of build q clean p none h = ground arith
  IsAccepted-state_of build q clean p (some none) h = ground arith
  IsAccepted-state_of build q clean p (some (some [])) h = ground arith
  IsAccepted-state_of build q clean p (some (some (s ∷ ss))) h = (refl, s, ss, refl, h)

  accepted :
      (build : ParseState b → Result ParsedQuery) (q : ParsedQuery) (clean : Text) (p : Parse b)
      (errors : List SyntaxError)
      → ((if not false && has_errors errors
            then err (parse_errors clean errors)
            else state_of clean false p p.stmtblock)
          >>= build)
        ≡ ok q
      → IsAccepted build q clean p errors p.stmtblock
  unfolding has_errors
  accepted build q clean p [] h = IsAccepted-state_of build q clean p p.stmtblock h
  accepted build q clean p (e ∷ es) h = ground arith

module _ ⦃u : Unicode⦄ (b : Builders) (lexer : Text → List LexerToken)
    (parse : Text → Parse b) where
  -- The query of a statement with the whole preprocessed text.
  abbrev pub Gives : Text → ParseOptions → ParsedQuery → Stmt b → Type 0
  Gives sql opts q s =
      parse_statement_to_ir b lexer (parse (preprocess sql)).stream opts s (preprocess sql) ≡ ok q

  alone :
      (opts : ParseOptions) (q : ParsedQuery) (clean : Text) (s : Stmt b) (ss : List (Stmt b))
      → strict_first b lexer parse opts (first_state clean (parse clean) s ss) ≡ ok q
      → (ss ≡ []) × (parse_first b lexer parse opts (first_state clean (parse clean) s ss) ≡ ok q)
  unfolding strict_first
  alone opts q clean s [] h = (refl, h)
  alone opts q clean s (t ∷ ss) h = ground arith

  accepts :
      (sql : Text) (opts : ParseOptions) (q : ParsedQuery)
      → (parse_sql b lexer parse sql opts ≡ ok q)
        ↔ ((parse (preprocess sql)).errors ≡ [])
          × (s : Stmt b) × (ss : List (Stmt b)) × ((parse (preprocess sql)).stmtblock
              ≡ some (some (s ∷ ss)))
          × Gives sql opts q s
  unfolding parse_sql prepare_parse_state recovered_state parse_first
  accepts sql opts q = (
    accepted (parse_first b lexer parse opts) q (preprocess sql) (parse (preprocess sql))
        (parse (preprocess sql)).errors,
    λ h. simp (h.0, h.3, has_errors, state_of) h.4,
  )

  strictly_accepts :
      (sql : Text) (opts : ParseOptions) (q : ParsedQuery)
      → (parse_sql_strict b lexer parse sql opts ≡ ok q)
        ↔ ((parse (preprocess sql)).errors ≡ [])
          × (s : Stmt b) × ((parse (preprocess sql)).stmtblock ≡ some (some (s ∷ [])))
          × Gives sql opts q s
  unfolding parse_sql_strict prepare_parse_state recovered_state parse_first
  strictly_accepts sql opts q = (
    λ h.
        let a =
          accepted (strict_first b lexer parse opts) q (preprocess sql) (parse (preprocess sql))
            (parse (preprocess sql)).errors h in
        let one = alone opts q (preprocess sql) a.1 a.2 a.4 in
        (a.0, a.1, a.3 ∙ ap (λ ss. some (some (a.1 ∷ ss))) one.0, one.1),
    λ h. simp (h.0, h.2, has_errors, state_of, strict_first, parse_first) h.3,
  )

  -- The parse of one statement gives a query exactly when the parser reports no syntax error and
  -- recovers at least one statement, and the first of them gives that query with the whole
  -- preprocessed text; a strict parse gives it exactly when, besides, no other statement is
  -- recovered.
  pub parse_sql_accepts :
      (sql : Text) (opts : ParseOptions) (q : ParsedQuery)
      → ((parse_sql b lexer parse sql opts ≡ ok q)
          ↔ ((parse (preprocess sql)).errors ≡ [])
            × (s : Stmt b) × (ss : List (Stmt b)) × ((parse (preprocess sql)).stmtblock
                ≡ some (some (s ∷ ss)))
            × Gives sql opts q s)
        × ((parse_sql_strict b lexer parse sql opts ≡ ok q)
            ↔ ((parse (preprocess sql)).errors ≡ [])
              × (s : Stmt b) × ((parse (preprocess sql)).stmtblock ≡ some (some (s ∷ [])))
              × Gives sql opts q s)
  parse_sql_accepts sql opts q = (accepts sql opts q, strictly_accepts sql opts q)
