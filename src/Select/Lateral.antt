-- ===== src/Select/Lateral.antt =====
-- `detectLateralCorrelation` and `containsWordDot` of select.go.
pub mod Laws
use Prim.Native.Nat.{◌%◌}
use postgresparser.Prelude.{
  ℕ, ◌+◌, Bool, true, false, not, ◌&&◌, ◌||◌, Option, none, some, List, [], ◌∷◌, ◌++◌, Text, codes,
  is_empty, ltb, ◌==◌, if◌then◌else◌,
}
use postgresparser.Strings.{Unicode, has_prefix}
use postgresparser.Ir.{TableRef, JoinCorrelation, QueryFields}
use postgresparser.Tree.{TokenStream}
use postgresparser.Syntax.{Tree, tree_text}

-- The last byte of a code point in UTF-8; a boundary is tested on this byte as if it were a rune.
unfoldable pub last_byte : ℕ → ℕ
last_byte c = if ltb c 128 then c else 128 + c % 64

module _ ⦃u : Unicode⦄ where
  unfoldable pub is_boundary : Option ℕ → Bool
  unfolding last_byte
  is_boundary none = true
  is_boundary (some c) = let b = last_byte c in not (u.is_letter b || u.is_digit b || b == b'_')

  -- The search for the needle from behind the code point `prev`.
  unfoldable pub word_dot_from : Text → Option ℕ → Text → Bool
  unfolding is_boundary
  word_dot_from needle prev [] = false
  word_dot_from needle prev (c ∷ text) =
      let rest = word_dot_from needle (some c) text in
      if has_prefix needle (c ∷ text) && is_boundary prev then true else rest

  -- `containsWordDot`
  unfoldable pub contains_word_dot : Text → Text → Bool
  unfolding word_dot_from
  contains_word_dot text word =
      if is_empty word then false else word_dot_from (word ++ codes ".") none text

  outer_name : TableRef → Text
  outer_name t = if is_empty t.alias then t.name else t.alias

  correlation_of : Text → Text → JoinCorrelation
  correlation_of text alias = record {
    outer_alias = alias;
    inner_alias = [];
    expression = text;
    correlation_type = codes "LATERAL";
  }

  correlations_of : Text → List TableRef → List JoinCorrelation
  unfolding outer_name correlation_of contains_word_dot
  correlations_of text [] = []
  correlations_of text (t ∷ ts) =
      let rest = correlations_of text ts in
      let alias = outer_name t in
      if contains_word_dot text alias then correlation_of text alias ∷ rest else rest

  -- `detectLateralCorrelation`
  unfoldable pub detect_lateral : {A : Type 0} → TokenStream → Tree A → QueryFields → QueryFields
  unfolding correlations_of
  detect_lateral tokens function result = record result {
    correlations = result.correlations ++ correlations_of (tree_text tokens function) result.tables;
  }
