-- ===== src/Entry/State.antt =====
-- `prepareParseState`, `ParseSQLWithOptions` and `ParseSQLStrictWithOptions` of entry.go. The
-- generated parser is a parameter.
pub mod Accepts
pub mod Laws
use postgresparser.Prelude.{
  ℕ, Bool, true, false, not, ◌&&◌, Option, none, some, List, [], ◌∷◌, length, Text, ltb,
  if◌then◌else◌,
}
use postgresparser.Strings.{Unicode}
use postgresparser.Errors.{
  SyntaxError, Error, no_statements, multiple_statements, parse_errors, Result, ok, err, ◌>>=◌,
}
use postgresparser.Ir.{ParsedQuery}
use postgresparser.Tree.{TokenStream}
use postgresparser.Preprocess.{preprocess}
use postgresparser.Entry.Parameters.{LexerToken}
use postgresparser.Entry.Statement.{Builders, Stmt, ParseOptions, parse_statement_to_ir}

-- What ANTLR makes of a text: the token stream, the syntax errors that the listener saw, and the
-- statements; the first `none` is a missing root or `stmtblock`, the second a missing `stmtmulti`.
pub record Parse (b : Builders) : Type 0 where
  pub stream : TokenStream
  pub errors : List SyntaxError
  pub stmtblock : Option (Option (List (Stmt b)))

-- `parseState`; its statements are never empty.
pub record ParseState (b : Builders) : Type 0 where
  pub clean_sql : Text
  pub stream : TokenStream
  pub first : Stmt b
  pub others : List (Stmt b)
  pub syntax_errors : List SyntaxError

abbrev pub stmts_of : {b : Builders} → ParseState b → List (Stmt b)
stmts_of state = state.first ∷ state.others

-- The error without a statement: that of the syntax errors, if there are any.
pub nothing_parsed : Text → List SyntaxError → Error
nothing_parsed clean [] = no_statements
nothing_parsed clean (e ∷ es) = parse_errors clean (e ∷ es)

pub has_errors : List SyntaxError → Bool
has_errors [] = false
has_errors (e ∷ es) = true

module _ {b : Builders} where
  pub state_of : Text → Bool → Parse b → Option (Option (List (Stmt b))) → Result (ParseState b)
  unfolding nothing_parsed
  state_of clean tolerate p (some (some (stmt ∷ stmts))) = ok (record {
    clean_sql = clean;
    stream = p.stream;
    first = stmt;
    others = stmts;
    syntax_errors = if tolerate then p.errors else [];
  })
  state_of clean tolerate p _ = err (nothing_parsed clean p.errors)

  pub recovered_state : Text → Bool → Parse b → Result (ParseState b)
  unfolding state_of has_errors
  recovered_state clean tolerate p =
      if not tolerate && has_errors p.errors
      then err (parse_errors clean p.errors)
      else state_of clean tolerate p p.stmtblock

module _ ⦃u : Unicode⦄ (b : Builders) (lexer : Text → List LexerToken)
    (parse : Text → Parse b) where
  -- `prepareParseState`
  unfoldable pub prepare_parse_state : Text → Bool → Result (ParseState b)
  unfolding recovered_state
  prepare_parse_state sql tolerate =
      recovered_state (preprocess sql) tolerate (parse (preprocess sql))

  pub parse_first : ParseOptions → ParseState b → Result ParsedQuery
  parse_first opts state =
      parse_statement_to_ir b lexer state.stream opts state.first state.clean_sql

  pub strict_first : ParseOptions → ParseState b → Result ParsedQuery
  unfolding parse_first
  strict_first opts state =
      let n = length (stmts_of state) in
      if ltb 1 n then err (multiple_statements n) else parse_first opts state

  unfoldable pub parse_sql : Text → ParseOptions → Result ParsedQuery
  unfolding parse_first
  parse_sql sql opts = prepare_parse_state sql false >>= parse_first opts

  unfoldable pub parse_sql_strict : Text → ParseOptions → Result ParsedQuery
  unfolding strict_first
  parse_sql_strict sql opts = prepare_parse_state sql false >>= strict_first opts
