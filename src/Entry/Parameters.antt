-- ===== src/Entry/Parameters.antt =====
-- `extractParameters` of helpers.go. The lexer is a parameter: the tokens that it gives for a text,
-- up to the end of the input.
pub mod Laws
use postgresparser.Prelude.{
  ℕ, ◌+◌, Bool, false, Option, none, some, List, [], ◌∷◌, Text, codes, ◌==◌, if◌then◌else◌,
}
use postgresparser.Strings.Decimal.{ℤ, pos, atoi}
use postgresparser.Ir.{Parameter}

-- `GetTokenType() == PostgreSQLLexerPARAM` and `GetText()`
pub record LexerToken : Type 0 where
  pub is_param : Bool
  pub text : Text

-- The position behind `$`; 0 where `strconv.Atoi` fails.
pub number_or_zero : Option ℤ → ℤ
number_or_zero none = pos 0
number_or_zero (some k) = k

pub numbered_parameter : Text → Text → Parameter
unfolding number_or_zero
numbered_parameter raw rest = record {
  raw = raw;
  marker = codes "$";
  position = number_or_zero (atoi rest);
}

pub anonymous_parameter : Text → ℕ → Parameter
anonymous_parameter raw n = record { raw = raw; marker = codes "?"; position = pos n }

-- `strings.HasPrefix(text, "$")`
pub is_numbered : Text → Bool
is_numbered [] = false
is_numbered (c ∷ s) = c == b'$'

pub tail : Text → Text
tail [] = []
tail (c ∷ s) = s

-- The loop; `n` is `anonIndex`.
unfoldable pub collect_parameters : ℕ → List LexerToken → List Parameter
unfolding numbered_parameter anonymous_parameter is_numbered tail
collect_parameters n [] = []
collect_parameters n (t ∷ ts) =
    let skipped = collect_parameters n ts in
    let next = collect_parameters (n + 1) ts in
    if t.is_param
    then if is_numbered t.text
      then numbered_parameter t.text (tail t.text) ∷ skipped
      else anonymous_parameter t.text n ∷ next
    else skipped

unfoldable pub extract_parameters : (Text → List LexerToken) → Text → List Parameter
extract_parameters lexer sql = collect_parameters 1 (lexer sql)
