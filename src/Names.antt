-- ===== src/Names.antt =====
-- Names in SQL text: `splitQuotedDot`, `splitQualifiedName` and `columnRefFromParts` of helpers.go,
-- `splitQualifiedColumnName` of ddl_comment.go and `TrimQuotes` of internal/ident.
pub mod Print
pub mod RoundTrip
use postgresparser.Prelude.{
  ℕ, ◌≡◌, refl, Bool, true, false, not, ◌&&◌, List, [], ◌∷◌, ◌++◌, Text, codes, is_empty, ◌==◌,
  if◌then◌else◌,
}
use postgresparser.Strings.{trim_space, trim_char, join}

-- The loop of `splitQuotedDot`, with `inQuote`, `s[start:i]` and `s[i:]`.
split_loop : Bool → Text → Text → List Text
split_loop in_quote part [] = part ∷ []
split_loop in_quote part (c ∷ s) =
    let toggled = split_loop (not in_quote) (part ++ c ∷ []) s in
    let cut = part ∷ split_loop in_quote [] s in
    let more = split_loop in_quote (part ++ c ∷ []) s in
    if c == b'"' then toggled else if (c == b'.') && not in_quote then cut else more

unfoldable pub split_quoted_dot : Text → List Text
unfolding split_loop
split_quoted_dot s = split_loop false [] s

-- The last element, and the elements before it.
unfoldable pub last_or {ℓ} : {A : Type ℓ} → A → List A → A
last_or x [] = x
last_or x (y ∷ ys) = last_or y ys

unfoldable pub init {ℓ} : {A : Type ℓ} → List A → List A
init [] = []
init (x ∷ []) = []
init (x ∷ y ∷ ys) = x ∷ init (y ∷ ys)

abbrev pub dot : Text
dot = b'.' ∷ []

qualified_parts : List Text → Text × Text
qualified_parts [] = ([], [])
qualified_parts (p ∷ []) = ([], trim_space p)
qualified_parts (p ∷ q ∷ ps) =
    (trim_space (join dot (init (p ∷ q ∷ ps))), trim_space (last_or p (q ∷ ps)))

-- The schema and the name.
unfoldable pub split_qualified_name : Text → Text × Text
unfolding qualified_parts split_quoted_dot last_or init
split_qualified_name name =
    if is_empty name then ([], []) else qualified_parts (split_quoted_dot name)

column_parts : List Text → Text × Text × Text
column_parts [] = ([], [], [])
column_parts (c ∷ []) = ([], [], trim_space c)
column_parts (t ∷ c ∷ []) = ([], trim_space t, trim_space c)
column_parts (p ∷ q ∷ r ∷ ps) = (
  trim_space (join dot (init (init (p ∷ q ∷ r ∷ ps)))),
  trim_space (last_or p (init (q ∷ r ∷ ps))),
  trim_space (last_or p (q ∷ r ∷ ps)),
)

-- The schema, the table and the column.
unfoldable pub split_qualified_column_name : Text → Text × Text × Text
unfolding column_parts split_quoted_dot last_or init
split_qualified_column_name name = column_parts (split_quoted_dot (trim_space name))

unfoldable pub trim_quotes : Text → Text
trim_quotes = trim_char b'"'

-- `columnRef`
pub record ColumnRef : Type 0 where
  pub table_alias : Text
  pub name : Text
  pub expr : Text

unfoldable pub column_ref_from_parts : List Text → ColumnRef
unfolding trim_quotes last_or init
column_ref_from_parts [] = record { table_alias = []; name = []; expr = [] }
column_ref_from_parts (p ∷ []) = record { table_alias = []; name = trim_quotes p; expr = [] }
column_ref_from_parts (p ∷ q ∷ ps) = record {
  table_alias = trim_quotes (last_or p (init (q ∷ ps)));
  name = trim_quotes (last_or p (q ∷ ps));
  expr = [];
}
