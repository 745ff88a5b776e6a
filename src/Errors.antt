-- ===== src/Errors.antt =====
-- errors.go: the errors of the package as values. A `fmt.Errorf` that wraps a sentinel is the
-- constructor of the sentinel with the text in front of it.
use postgresparser.Prelude.{ℕ, Option, List, Text}

-- `SyntaxError`; the token index is `none` where the code has -1.
pub record SyntaxError : Type 0 where
  pub line : ℕ
  pub column : ℕ
  pub message : Text
  pub token_index : Option ℕ

pub data Error : Type 0 where
  no_statements : Error
  multiple_statements : ℕ → Error
  nil_context : Text → Error
  parse_errors : Text → List SyntaxError → Error
  unsupported : Text → Error

-- A result with an error.
pub data Result {ℓ} (A : Type ℓ) : Type ℓ where
  ok : A → Result A
  err : Error → Result A

infixl 5 ◌>>=◌
abbrev pub ◌>>=◌ {ℓ κ} : {A : Type ℓ} {B : Type κ} → Result A → (A → Result B) → Result B
ok a >>= f = f a
err e >>= f = err e
