-- ===== src/Entry/Locate.antt =====
-- `statementIndexForSyntaxError`, `statementTokenBounds` and `statementLineBounds` of entry.go.
pub mod Laws
use postgresparser.Prelude.{
  ℕ, suc, Bool, true, false, ◌&&◌, Option, none, some, List, [], ◌∷◌, ltb, leb, ◌==◌, if◌then◌else◌,
}
use postgresparser.Errors.{SyntaxError}
use postgresparser.Entry.Statement.{Builders, Token, Stmt}

-- `none` is -1
unfoldable pub statement_token_bounds : {b : Builders} → Stmt b → Option ℕ × Option ℕ
statement_token_bounds stmt = elim stmt.start [
  | none ↦ (none, none)
  | some first ↦ elim stmt.stop [ none ↦ (none, none) | some last ↦ (first.index, last.index) ]
]

line_of : Option Token → ℕ
line_of none = 0
line_of (some t) = t.line

unfoldable pub statement_line_bounds : {b : Builders} → Stmt b → ℕ × ℕ
unfolding line_of
statement_line_bounds stmt =
    let first = line_of stmt.start in
    let last = line_of stmt.stop in (first, if ltb 0 first && ltb last first then first else last)

-- Whether the token stands between the bounds; bounds that are missing or swapped hold no token.
unfoldable pub in_bounds : Option ℕ × Option ℕ → ℕ → Bool
in_bounds (some first, some last) k = if ltb last first then false else leb first k && leb k last
in_bounds (some first, none) k = false
in_bounds (none, last) k = false

unfoldable pub in_lines : ℕ × ℕ → ℕ → Bool
in_lines (first, last) line =
    if (first == 0) && (last == 0) then false else leb first line && leb line last

-- The place of the first element that passes the test, counted from `i`.
unfoldable pub first_index {ℓ} : {A : Type ℓ} → (A → Bool) → ℕ → List A → Option ℕ
first_index test i [] = none
first_index test i (x ∷ xs) =
    let rest = first_index test (suc i) xs in if test x then some i else rest

pub or_else {ℓ} : {A : Type ℓ} → Option A → Option A → Option A
or_else none o = o
or_else (some a) o = some a

module _ {b : Builders} where
  pub holds_token : ℕ → Stmt b → Bool
  unfolding in_bounds statement_token_bounds
  holds_token k stmt = in_bounds (statement_token_bounds stmt) k

  pub holds_line : ℕ → Stmt b → Bool
  unfolding in_lines statement_line_bounds
  holds_line line stmt = in_lines (statement_line_bounds stmt) line

  pub by_token : Option ℕ → List (Stmt b) → Option ℕ
  unfolding holds_token
  by_token none stmts = none
  by_token (some k) stmts = first_index (holds_token k) 0 stmts

  pub before_first : ℕ → List (Stmt b) → Option ℕ
  before_first line [] = none
  before_first line (stmt ∷ stmts) =
      let first = (statement_line_bounds stmt).0 in
      if ltb 0 first && ltb line first then some 0 else none

  -- `statementIndexForSyntaxError`: by token, then by line, then before the first statement; `none` is -1
  unfoldable pub statement_index : List (Stmt b) → SyntaxError → Option ℕ
  unfolding holds_line by_token before_first or_else
  statement_index stmts e =
      or_else (by_token e.token_index stmts)
        (or_else (first_index (holds_line e.line) 0 stmts) (before_first e.line stmts))
