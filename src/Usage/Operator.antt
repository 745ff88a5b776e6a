-- ===== src/Usage/Operator.antt =====
-- `extractOperatorFromExpression` of helpers.go, on the text that `GetText()` gives.
use postgresparser.Prelude.{
  ℕ, zero, suc, ◌+◌, Bool, true, false, ◌&&◌, ◌||◌, Option, none, some, List, [], ◌∷◌, Text, codes,
  length, get_elem?, contains, ◌==◌, if◌then◌else◌,
}
use postgresparser.Strings.{Unicode, to_upper}
use postgresparser.Strings.Search.{index_of}

abbrev operators : List Text
operators =
    codes "!="
    ∷ codes "<>"
    ∷ codes "<="
    ∷ codes ">="
    ∷ codes "="
    ∷ codes "<"
    ∷ codes ">"
    ∷ codes "LIKE"
    ∷ codes "ILIKE"
    ∷ codes "NOT IN"
    ∷ codes "IN"
    ∷ codes "IS NOT"
    ∷ codes "IS"
    ∷ []

-- The operators that stand as words of their own.
abbrev word_operators : List Text
word_operators =
    codes "LIKE" ∷ codes "ILIKE" ∷ codes "IN" ∷ codes "NOT IN" ∷ codes "IS" ∷ codes "IS NOT" ∷ []

-- a space or a parenthesis
is_gap : ℕ → Bool
is_gap c = c == b' ' || c == b'(' || c == b')'

-- whether a character, if there is one, passes a test
passes : (ℕ → Bool) → Option ℕ → Bool
passes test none = true
passes test (some c) = test c

before : Text → ℕ → Option ℕ
before s zero = none
before s (suc i) = get_elem? s i

-- The word at `idx` has a gap before and behind it; a quote may follow too.
stands_alone : Text → ℕ → ℕ → Bool
unfolding is_gap passes before
stands_alone s idx size =
    passes is_gap (before s idx) && passes (λ c. is_gap c || c == b'\'') (get_elem? s (idx + size))

operator_at : Text → Text → Option ℕ → Bool
unfolding stands_alone
operator_at upper op none = false
operator_at upper op (some idx) =
    if contains word_operators op then stands_alone upper idx (length op) else true

module _ ⦃u : Unicode⦄ where
  first_operator : Text → List Text → Text
  unfolding operator_at
  first_operator upper [] = []
  first_operator upper (op ∷ ops) =
      let rest = first_operator upper ops in
      if operator_at upper op (index_of op upper) then op else rest

  unfoldable pub operator_of_text : Text → Text
  unfolding first_operator
  operator_of_text text = first_operator (to_upper text) operators
