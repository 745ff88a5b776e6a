-- ===== src/Entry/Batch/Laws.antt =====
-- A batch: one result for each statement, each from its own text, with the syntax errors that
-- are located in it.
use postgresparser.Prelude.{
  ℕ, zero, suc, ◌<◌, ◌≡◌, refl, sym, ap, ◌∙◌, Bool, true, false, Bool-cases, inl, inr, Option, none,
  some, List, [], ◌∷◌, ◌++◌, append-nil, append_assoc, map, length, get_elem?, keep, keep_cons,
  arith, Text, is_empty, ◌==◌, if◌then◌else◌, or-true_right, ==_self,
}
use postgresparser.Strings.{Unicode}
use postgresparser.Errors.{SyntaxError, ok}
use postgresparser.Ir.{ParsedQuery}
use postgresparser.Preprocess.{preprocess}
use postgresparser.Tree.{TokenStream}
use postgresparser.Entry.Parameters.{LexerToken}
use postgresparser.Entry.Statement.{
  Builders, Stmt, ParseOptions, parse_statement_to_ir, statement_text,
}
use postgresparser.Entry.Locate.{statement_index}
use postgresparser.Entry.State.{Parse, ParseState, stmts_of}
use postgresparser.Entry.Locate.Laws.{statement_index_range}
use postgresparser.Entry.State.Laws.{prepare_parse_state-recovered}
use postgresparser.Entry.Batch.{
  ParseWarning, StatementParseResult, ParseBatchResult, query_of, syntax_warning, warn, warn_at,
  has_failed, any_failed, statement_result, statement_results, add_warnings, batch_of, batch,
  parse_sql_all,
}

-- `i`, `i + 1`, …, one for each element
unfoldable pub numbers_from {ℓ} : {A : Type ℓ} → ℕ → List A → List ℕ
numbers_from i [] = []
numbers_from i (x ∷ xs) = i ∷ numbers_from (suc i) xs

pub is_at : ℕ → Option ℕ → Bool
is_at i none = false
is_at i (some k) = k == i

abbrev pub located_at : {b : Builders} → List (Stmt b) → ℕ → SyntaxError → Bool
located_at stmts i e = is_at i (statement_index stmts e)

abbrev pub warnings_of : List StatementParseResult → List (List ParseWarning)
warnings_of = map (λ (s : StatementParseResult). s.warnings)

-- What the warnings leave: the index, the text and the query of a result.
abbrev pub core : StatementParseResult → ℕ × Text × Option ParsedQuery
core s = (s.index, s.raw_sql, s.query)

warn_at-core :
    (k : Option ℕ) (w : ParseWarning) (ss : List StatementParseResult)
    → map core (warn_at k w ss) ≡ map core ss
unfolding warn_at warn
warn_at-core none w ss = refl
warn_at-core (some k) w [] = refl
warn_at-core (some zero) w (s ∷ ss) = refl
warn_at-core (some (suc k)) w (s ∷ ss) = ap (λ l. core s ∷ l) (warn_at-core (some k) w ss)

pub add_warnings-core :
    {b : Builders} (stmts : List (Stmt b)) (es : List SyntaxError) (ss : List StatementParseResult)
    → map core (add_warnings stmts es ss) ≡ map core ss
unfolding add_warnings
add_warnings-core stmts [] ss = refl
add_warnings-core stmts (e ∷ es) ss =
    add_warnings-core stmts es (warn_at (statement_index stmts e) (syntax_warning e) ss)
    ∙ warn_at-core (statement_index stmts e) (syntax_warning e) ss

warned :
    (w : ParseWarning) (s : StatementParseResult) (ws : List ParseWarning)
    → some s.warnings ≡ some ws
    → some (s.warnings ++ w ∷ []) ≡ some (ws ++ w ∷ [])
warned w s ws h = ground arith

is_at_here : is_at 0 (some 0) ≡ true
unfolding is_at
is_at_here = refl

is_at-none : (i : ℕ) → is_at i none ≡ false
unfolding is_at
is_at-none i = refl

is_at_later : (i : ℕ) → is_at (suc i) (some 0) ≡ false
unfolding is_at
is_at_later i = ground arith

is_at_earlier : (k : ℕ) → is_at 0 (some (suc k)) ≡ false
unfolding is_at
is_at_earlier k = ground arith

is_at-suc : (i k : ℕ) → is_at (suc i) (some (suc k)) ≡ is_at i (some k)
unfolding is_at
is_at-suc i k = ground arith

-- Only the result at the place gains the warning.
warn_at-warnings :
    (k : Option ℕ) (w : ParseWarning) (ss : List StatementParseResult) (i : ℕ)
    (ws : List ParseWarning)
    → get_elem? (warnings_of ss) i ≡ some ws
    → get_elem? (warnings_of (warn_at k w ss)) i ≡ some (ws ++ (if is_at i k then w ∷ [] else []))
unfolding warn_at warn
warn_at-warnings none w ss i ws h = simp (is_at-none i, append-nil, h)
warn_at-warnings (some k) w [] i ws h = ground arith
warn_at-warnings (some zero) w (s ∷ ss) zero ws h = simp is_at_here (warned w s ws h)
warn_at-warnings (some zero) w (s ∷ ss) (suc i) ws h = simp (is_at_later i, append-nil, h)
warn_at-warnings (some (suc k)) w (s ∷ ss) zero ws h = simp (is_at_earlier k, append-nil, h)
warn_at-warnings (some (suc k)) w (s ∷ ss) (suc i) ws h =
    simp (is_at-suc i k) (warn_at-warnings (some k) w ss i ws h)

kept_warning :
    (test : SyntaxError → Bool) (e : SyntaxError) (es : List SyntaxError)
    → map syntax_warning (keep test (e ∷ es))
      ≡ (if test e then syntax_warning e ∷ [] else []) ++ map syntax_warning (keep test es)
kept_warning test e es =
    ap (map syntax_warning) (keep_cons test e es)
    ∙ elim (Bool-cases (test e)) [ inl t ↦ rw t refl | inr f ↦ rw f refl ]

pub add_warnings-warnings :
    {b : Builders} (stmts : List (Stmt b)) (es : List SyntaxError) (ss : List StatementParseResult)
    (i : ℕ) (ws : List ParseWarning)
    → get_elem? (warnings_of ss) i ≡ some ws
    → get_elem? (warnings_of (add_warnings stmts es ss)) i
      ≡ some (ws ++ map syntax_warning (keep (located_at stmts i) es))
unfolding add_warnings keep
add_warnings-warnings stmts [] ss i ws h = rw append-nil h
add_warnings-warnings stmts (e ∷ es) ss i ws h =
    add_warnings-warnings stmts es (warn_at (statement_index stmts e) (syntax_warning e) ss) i _
      (warn_at-warnings (statement_index stmts e) (syntax_warning e) ss i ws h)
    ∙ ap some
        (append_assoc ws _ _ ∙ ap (λ l. ws ++ l) (sym (kept_warning (located_at stmts i) e es)))

module _ ⦃u : Unicode⦄ (b : Builders) (lexer : Text → List LexerToken) where
  -- The index, the text and the query that a statement has on its own.
  pub alone : TokenStream → ParseOptions → ℕ → Stmt b → ℕ × Text × Option ParsedQuery
  alone tokens opts i stmt =
      let raw = statement_text b tokens stmt in
      (
        i,
        raw,
        if is_empty raw
            then none
            else query_of (parse_statement_to_ir b lexer tokens opts stmt raw),
      )

  pub all_alone :
      TokenStream → ParseOptions → ℕ → List (Stmt b) → List (ℕ × Text × Option ParsedQuery)
  unfolding alone
  all_alone tokens opts i [] = []
  all_alone tokens opts i (stmt ∷ stmts) =
      alone tokens opts i stmt ∷ all_alone tokens opts (suc i) stmts

  statement_results-core :
      (tokens : TokenStream) (opts : ParseOptions) (i : ℕ) (stmts : List (Stmt b))
      → map core (statement_results b lexer tokens opts i stmts) ≡ all_alone tokens opts i stmts
  unfolding statement_results statement_result all_alone
  statement_results-core tokens opts i [] = refl
  statement_results-core tokens opts i (stmt ∷ stmts) =
      ap (λ l. alone tokens opts i stmt ∷ l) (statement_results-core tokens opts (suc i) stmts)

  no_warnings :
      (tokens : TokenStream) (opts : ParseOptions) (n : ℕ) (stmts : List (Stmt b)) (i : ℕ)
      → i < length stmts
      → get_elem? (warnings_of (statement_results b lexer tokens opts n stmts)) i ≡ some []
  unfolding statement_results statement_result
  no_warnings tokens opts n [] i h = elim h [ ]
  no_warnings tokens opts n (stmt ∷ stmts) zero h = refl
  no_warnings tokens opts n (stmt ∷ stmts) (suc i) h =
      no_warnings tokens opts (suc n) stmts i (omega arith)

first_failed :
    (q : Option ParsedQuery) (vs : List ParseWarning) (w : ParseWarning) (ws : List ParseWarning)
    → some vs ≡ some (w ∷ ws)
    → has_failed q vs ≡ true
unfolding has_failed
first_failed none vs w ws h = refl
first_failed (some q) [] w ws h = ground arith
first_failed (some q) (v ∷ vs) w ws h = refl

failed_warning :
    (ss : List StatementParseResult) (i : ℕ) (w : ParseWarning) (ws : List ParseWarning)
    → get_elem? (warnings_of ss) i ≡ some (w ∷ ws)
    → any_failed ss ≡ true
unfolding any_failed has_failed
failed_warning [] i w ws h = ground arith
failed_warning (s ∷ ss) zero w ws h = rw (first_failed s.query s.warnings w ws h) refl
failed_warning (s ∷ ss) (suc i) w ws h = simp (failed_warning ss i w ws h, or-true_right)

located_here :
    {b : Builders} (k : ℕ) (e : SyntaxError) (stmts : List (Stmt b))
    → statement_index stmts e ≡ some k
    → located_at stmts k e ≡ true
unfolding is_at
located_here k e stmts here = rw here (==_self k)

kept_first :
    (test : SyntaxError → Bool) (before : List SyntaxError) (e : SyntaxError)
    (after : List SyntaxError)
    → test e ≡ true
    → (w : ParseWarning) × (ws : List ParseWarning) × (map syntax_warning
          (keep test (before ++ e ∷ after))
        ≡ w ∷ ws)
kept_first test [] e after h =
    (syntax_warning e, map syntax_warning (keep test after), simp (keep_cons test e after, h))
kept_first test (d ∷ ds) e after h = elim (Bool-cases (test d)) [
  | inl t ↦ (
    syntax_warning d,
    map syntax_warning (keep test (ds ++ e ∷ after)),
    simp (keep_cons test d (ds ++ e ∷ after), t),
  )
  | inr f ↦
      let rest = kept_first test ds e after h in
      (rest.0, rest.1, simp (keep_cons test d (ds ++ e ∷ after), f) rest.2)
]

module _ ⦃u : Unicode⦄ (b : Builders) (lexer : Text → List LexerToken)
    (parse : Text → Parse b) where
  -- If the parser recovers a non-empty list of statements, a batch parse succeeds, whatever the
  -- syntax errors; its results stand in the order of the statements, numbered from 1, each with the
  -- text and the query that its statement has on its own; and the warnings of each are exactly the
  -- syntax errors located in it, in their order.
  pub parse_sql_all-core :
      (sql : Text) (opts : ParseOptions) (s : Stmt b) (ss : List (Stmt b))
      → (parse (preprocess sql)).stmtblock ≡ some (some (s ∷ ss))
      → (r : ParseBatchResult) × (parse_sql_all b lexer parse sql opts ≡ ok r)
        × (map core r.statements
            ≡ all_alone b lexer (parse (preprocess sql)).stream opts 1 (s ∷ ss))
        × ((i : ℕ)
            → i < length (s ∷ ss)
            → get_elem? (warnings_of r.statements) i
              ≡ some (
                  map syntax_warning
                    (keep (located_at (s ∷ ss) i) (parse (preprocess sql)).errors)))
  unfolding parse_sql_all batch batch_of
  parse_sql_all-core sql opts s ss h =
      let p = parse (preprocess sql) in
      let results = statement_results b lexer p.stream opts 1 (s ∷ ss) in
      (
        batch_of (add_warnings (s ∷ ss) p.errors results),
        simp (prepare_parse_state-recovered b lexer parse sql s ss h),
        add_warnings-core (s ∷ ss) p.errors results
            ∙ statement_results-core b lexer p.stream opts 1 (s ∷ ss),
        λ i hi.
            add_warnings-warnings (s ∷ ss) p.errors results i []
              (no_warnings b lexer p.stream opts 1 (s ∷ ss) i hi),
      )

  -- A batch with that statement list fails where an error is located.
  located_fails :
      (opts : ParseOptions) (state : ParseState b) (before after : List SyntaxError)
      (e : SyntaxError) (k : ℕ)
      → state.syntax_errors ≡ before ++ e ∷ after
      → statement_index (stmts_of state) e ≡ some k
      → k < length (stmts_of state)
      → (batch b lexer parse opts state).has_failures ≡ true
  unfolding batch batch_of
  located_fails opts state before after e k split here range =
      let stmts = stmts_of state in
      let kept = kept_first (located_at stmts k) before e after (located_here k e stmts here) in
      failed_warning
        (add_warnings stmts state.syntax_errors
          (statement_results b lexer state.stream opts 1 stmts))
        k kept.0 kept.1
        (add_warnings-warnings stmts state.syntax_errors _ k []
            (no_warnings b lexer state.stream opts 1 stmts k range)
          ∙ ap (λ es. some (map syntax_warning (keep (located_at stmts k) es))) split
          ∙ ap some kept.2)

  -- If the parser recovers statements and a syntax error is located in one of them, the batch parse
  -- succeeds and reports that it has failures.
  pub parse_sql_all-located :
      (sql : Text) (opts : ParseOptions) (s : Stmt b) (ss : List (Stmt b))
      (before after : List SyntaxError) (e : SyntaxError) (k : ℕ)
      → (parse (preprocess sql)).stmtblock ≡ some (some (s ∷ ss))
      → (parse (preprocess sql)).errors ≡ before ++ e ∷ after
      → statement_index (s ∷ ss) e ≡ some k
      → (r : ParseBatchResult) × (parse_sql_all b lexer parse sql opts ≡ ok r)
        × (r.has_failures ≡ true)
  unfolding parse_sql_all
  parse_sql_all-located sql opts s ss before after e k h split here =
      let state : ParseState b = record {
        clean_sql = preprocess sql;
        stream = (parse (preprocess sql)).stream;
        first = s;
        others = ss;
        syntax_errors = (parse (preprocess sql)).errors;
      } in
      (
        batch b lexer parse opts state,
        simp (prepare_parse_state-recovered b lexer parse sql s ss h),
        located_fails opts state before after e k split here
            (statement_index_range (s ∷ ss) e k here),
      )
