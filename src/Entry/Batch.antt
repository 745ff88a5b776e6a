-- ===== src/Entry/Batch.antt =====
-- `ParseSQLAllWithOptions` of entry.go, with `ParseWarning`, `StatementParseResult` and
-- `ParseBatchResult` of ir.go.
pub mod Laws
use postgresparser.Prelude.{
  ℕ, zero, suc, ◌+◌, Bool, true, false, ◌||◌, Option, none, some, List, [], ◌∷◌, ◌++◌, Text, codes,
  is_empty, if◌then◌else◌,
}
use postgresparser.Strings.{Unicode}
use postgresparser.Strings.Decimal.{decimal}
use postgresparser.Errors.{SyntaxError, Result, ok, err, ◌>>=◌}
use postgresparser.Ir.{ParsedQuery}
use postgresparser.Tree.{TokenStream}
use postgresparser.Entry.Parameters.{LexerToken}
use postgresparser.Entry.Statement.{
  Builders, Stmt, ParseOptions, parse_statement_to_ir, statement_text,
}
use postgresparser.Entry.Locate.{statement_index}
use postgresparser.Entry.State.{Parse, ParseState, stmts_of, prepare_parse_state}

pub data ParseWarningCode : Type 0 where
  syntax_error : ParseWarningCode

pub record ParseWarning : Type 0 where
  pub code : ParseWarningCode
  pub message : Text

pub record StatementParseResult : Type 0 where
  pub index : ℕ
  pub raw_sql : Text
  pub query : Option ParsedQuery
  pub warnings : List ParseWarning

pub record ParseBatchResult : Type 0 where
  pub statements : List StatementParseResult
  pub has_failures : Bool

-- A failure leaves the query nil.
pub query_of : Result ParsedQuery → Option ParsedQuery
query_of (ok q) = some q
query_of (err e) = none

-- `fmt.Sprintf("line %d:%d %s", …)`
pub syntax_warning : SyntaxError → ParseWarning
syntax_warning e = record {
  code = syntax_error;
  message =
      codes "line " ++ decimal e.line ++ codes ":" ++ decimal e.column ++ codes " " ++ e.message;
}

pub warn : ParseWarning → StatementParseResult → StatementParseResult
warn w s = record s { warnings = s.warnings ++ w ∷ [] }

-- The statement at a place, with one warning more; none is out of range.
pub warn_at : Option ℕ → ParseWarning → List StatementParseResult → List StatementParseResult
unfolding warn
warn_at none w ss = ss
warn_at (some i) w [] = []
warn_at (some zero) w (s ∷ ss) = warn w s ∷ ss
warn_at (some (suc i)) w (s ∷ ss) = s ∷ warn_at (some i) w ss

pub has_failed : Option ParsedQuery → List ParseWarning → Bool
has_failed none ws = true
has_failed (some q) [] = false
has_failed (some q) (w ∷ ws) = true

-- The last loop.
pub any_failed : List StatementParseResult → Bool
unfolding has_failed
any_failed [] = false
any_failed (s ∷ ss) = has_failed s.query s.warnings || any_failed ss

module _ ⦃u : Unicode⦄ (b : Builders) (lexer : Text → List LexerToken) where
  pub statement_result : TokenStream → ParseOptions → ℕ → Stmt b → StatementParseResult
  unfolding query_of
  statement_result tokens opts i stmt =
      let raw = statement_text b tokens stmt in
      record {
        index = i;
        raw_sql = raw;
        query =
            if is_empty raw
            then none
            else query_of (parse_statement_to_ir b lexer tokens opts stmt raw);
        warnings = [];
      }

  -- The first loop, from the statement of index `i` on.
  pub statement_results : TokenStream → ParseOptions → ℕ → List (Stmt b) → List StatementParseResult
  unfolding statement_result
  statement_results tokens opts i [] = []
  statement_results tokens opts i (stmt ∷ stmts) =
      statement_result tokens opts i stmt ∷ statement_results tokens opts (suc i) stmts

-- The second loop, over the syntax errors.
unfoldable pub add_warnings :
    {b : Builders}
    → List (Stmt b)
    → List SyntaxError
    → List StatementParseResult
    → List StatementParseResult
unfolding warn_at syntax_warning
add_warnings stmts [] ss = ss
add_warnings stmts (e ∷ es) ss =
    add_warnings stmts es (warn_at (statement_index stmts e) (syntax_warning e) ss)

pub batch_of : List StatementParseResult → ParseBatchResult
unfolding any_failed
batch_of ss = record { statements = ss; has_failures = any_failed ss }

module _ ⦃u : Unicode⦄ (b : Builders) (lexer : Text → List LexerToken)
    (parse : Text → Parse b) where
  pub batch : ParseOptions → ParseState b → ParseBatchResult
  unfolding statement_results add_warnings batch_of
  batch opts state = batch_of (
      add_warnings (stmts_of state) state.syntax_errors
        (statement_results b lexer state.stream opts 1 (stmts_of state)))

  -- `ParseSQLAllWithOptions`
  unfoldable pub parse_sql_all : Text → ParseOptions → Result ParseBatchResult
  unfolding batch
  parse_sql_all sql opts =
      prepare_parse_state b lexer parse sql true >>= λ state. ok (batch opts state)
