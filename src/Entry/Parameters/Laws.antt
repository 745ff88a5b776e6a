-- ===== src/Entry/Parameters/Laws.antt =====
-- The parameters of a statement: which ones, in which order, and their positions.
use postgresparser.Prelude.{
  ℕ, ◌+◌, ◌≤◌, ◌≡◌, refl, Bool, true, Bool-cases, inl, inr, List, [], ◌∷◌, ◌++◌, map, keep, Text,
  codes, text_eq,
}
use postgresparser.Strings.Decimal.{ℤ, pos, max_int, decimal}
use postgresparser.Strings.Decimal.Laws.{atoi-decimal}
use postgresparser.Ir.{Parameter}
use postgresparser.Entry.Parameters.{
  LexerToken, is_numbered, number_or_zero, numbered_parameter, anonymous_parameter, tail,
  collect_parameters, extract_parameters,
}

-- `n`, `n + 1`, …, one for each element
unfoldable pub count_from {ℓ} : {A : Type ℓ} → ℕ → List A → List ℤ
count_from n [] = []
count_from n (x ∷ xs) = pos n ∷ count_from (n + 1) xs

pub is_anonymous : Parameter → Bool
is_anonymous p = text_eq p.marker (codes "?")

module _ (lexer : Text → List LexerToken) (sql : Text) where
  collected_raws :
      (n : ℕ) (ts : List LexerToken)
      → map (λ (p : Parameter). p.raw) (collect_parameters n ts)
        ≡ map (λ (t : LexerToken). t.text) (keep (λ (t : LexerToken). t.is_param) ts)
  unfolding collect_parameters keep numbered_parameter anonymous_parameter
  collected_raws n [] = refl
  collected_raws n (t ∷ ts) = elim (Bool-cases t.is_param) [
    | inl p ↦ elim (Bool-cases (is_numbered t.text)) [
      | inl d ↦ rw (p, d, collected_raws n ts) refl
      | inr d ↦ rw (p, d, collected_raws (n + 1) ts) refl
    ]
    | inr p ↦ rw (p, collected_raws n ts) refl
  ]

  -- The parameters of a text are its parameter tokens, all of them and in their order.
  pub extract_parameters-raws :
      map (λ (p : Parameter). p.raw) (extract_parameters lexer sql)
      ≡ map (λ (t : LexerToken). t.text) (keep (λ (t : LexerToken). t.is_param) (lexer sql))
  unfolding extract_parameters
  extract_parameters-raws = collected_raws 1 (lexer sql)

  collected_positions :
      (n : ℕ) (ts : List LexerToken)
      → map (λ (p : Parameter). p.position) (keep is_anonymous (collect_parameters n ts))
        ≡ count_from n (keep is_anonymous (collect_parameters n ts))
  unfolding collect_parameters keep numbered_parameter anonymous_parameter is_anonymous count_from
      text_eq
  collected_positions n [] = refl
  collected_positions n (t ∷ ts) = elim (Bool-cases t.is_param) [
    | inl p ↦ elim (Bool-cases (is_numbered t.text)) [
      | inl d ↦ rw (p, d, collected_positions n ts) refl
      | inr d ↦ rw (p, d, collected_positions (n + 1) ts) refl
    ]
    | inr p ↦ rw (p, collected_positions n ts) refl
  ]

  -- The anonymous parameters of a text have the positions 1, 2, 3 and so on, whatever numbered ones
  -- stand between them.
  pub extract_parameters-positions :
      map (λ (p : Parameter). p.position) (keep is_anonymous (extract_parameters lexer sql))
      ≡ count_from 1 (keep is_anonymous (extract_parameters lexer sql))
  unfolding extract_parameters
  extract_parameters-positions = collected_positions 1 (lexer sql)

-- A parameter token of a dollar sign and a number within an `int` is read as a numbered parameter at
-- that position, and leaves the numbering of the anonymous ones as it is.
pub collect_parameters-numbered :
    (n k : ℕ) (ts : List LexerToken)
    → k ≤ max_int
    → collect_parameters n (record { is_param = true; text = codes "$" ++ decimal k } ∷ ts)
      ≡ record { raw = codes "$" ++ decimal k; marker = codes "$"; position = pos k }
        ∷ collect_parameters n ts
unfolding collect_parameters numbered_parameter is_numbered tail number_or_zero
collect_parameters-numbered n k ts h = simp (atoi-decimal k h)
