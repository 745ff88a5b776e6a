-- ===== src/Entry/Locate/Laws.antt =====
-- Where a syntax error is booked.
use postgresparser.Prelude.{
  ℕ, suc, ◌+◌, ◌<◌, ◌≡◌, Bool, true, false, Option, none, some, List, [], ◌∷◌, ◌++◌, length, All,
  arith,
}
use postgresparser.Errors.{SyntaxError}
use postgresparser.Entry.Statement.{Builders, Stmt}
use postgresparser.Entry.Locate.{
  in_bounds, statement_token_bounds, first_index, before_first, statement_index, or_else, by_token,
  holds_token, holds_line,
}

first_index_range :
    {A : Type 0} (test : A → Bool) (i : ℕ) (xs : List A) (k : ℕ)
    → first_index test i xs ≡ some k
    → k < i + length xs
unfolding first_index
first_index_range test i [] k e = ground arith
first_index_range test i (x ∷ xs) k e = ground (arith, first_index_range test (suc i) xs k)

first_index_found :
    {A : Type 0} (test : A → Bool) (i : ℕ) (before : List A) (x : A) (after : List A)
    → All (λ y. test y ≡ false) before
    → test x ≡ true
    → first_index test i (before ++ x ∷ after) ≡ some (i + length before)
unfolding first_index
first_index_found test i [] x after h t = ground arith
first_index_found test i (y ∷ ys) x after h t =
    ground (arith, h.0, first_index_found test (suc i) ys x after h.1 t)

or_else_range :
    (o p : Option ℕ) (n k : ℕ)
    → ((j : ℕ) → o ≡ some j → j < n)
    → ((j : ℕ) → p ≡ some j → j < n)
    → or_else o p ≡ some k
    → k < n
unfolding or_else
or_else_range none p n k ho hp e = hp k e
or_else_range (some j) p n k ho hp e = ho k e

found_range :
    {A : Type 0} (test : A → Bool) (xs : List A) (k : ℕ)
    → first_index test 0 xs ≡ some k
    → k < length xs
found_range test xs k e = omega (arith, first_index_range test 0 xs k e)

first_found :
    {A : Type 0} (test : A → Bool) (before : List A) (x : A) (after : List A)
    → All (λ y. test y ≡ false) before
    → test x ≡ true
    → first_index test 0 (before ++ x ∷ after) ≡ some (length before)
first_found test before x after h t = ground (arith, first_index_found test 0 before x after h t)

module _ {b : Builders} where
  by_token_range :
      (t : Option ℕ) (stmts : List (Stmt b)) (j : ℕ) → by_token t stmts ≡ some j → j < length stmts
  unfolding by_token
  by_token_range none stmts j e = ground arith
  by_token_range (some k) stmts j e = found_range (holds_token k) stmts j e

  before_first_range :
      (line : ℕ) (stmts : List (Stmt b)) (j : ℕ)
      → before_first line stmts ≡ some j
      → j < length stmts
  unfolding before_first
  before_first_range line [] j e = ground arith
  before_first_range line (s ∷ ss) j e = ground arith

  -- The statement that a syntax error is booked on, if there is one, is one of the statements.
  pub statement_index_range :
      (stmts : List (Stmt b)) (e : SyntaxError) (k : ℕ)
      → statement_index stmts e ≡ some k
      → k < length stmts
  unfolding statement_index
  statement_index_range stmts e k h =
      or_else_range (by_token e.token_index stmts)
        (or_else (first_index (holds_line e.line) 0 stmts) (before_first e.line stmts))
        (length stmts) k (by_token_range e.token_index stmts)
        (λ j hj.
          or_else_range (first_index (holds_line e.line) 0 stmts) (before_first e.line stmts)
            (length stmts) j (found_range (holds_line e.line) stmts)
            (before_first_range e.line stmts) hj)
        h

  -- A syntax error whose token is known is booked on the first statement whose token bounds hold the
  -- token.
  pub statement_index_token :
      (before after : List (Stmt b)) (stmt : Stmt b) (e : SyntaxError) (k : ℕ)
      → e.token_index ≡ some k
      → All (λ (s : Stmt b). in_bounds (statement_token_bounds s) k ≡ false) before
      → in_bounds (statement_token_bounds stmt) k ≡ true
      → statement_index (before ++ stmt ∷ after) e ≡ some (length before)
  unfolding statement_index or_else by_token holds_token
  statement_index_token before after stmt e k t none_before here = rw (
    t,
    first_found (λ (s : Stmt b). in_bounds (statement_token_bounds s) k) before stmt after
        none_before here,
  )
