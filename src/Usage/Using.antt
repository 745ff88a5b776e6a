-- ===== src/Usage/Using.antt =====
-- `recordUsingJoinFromString`, `recordUsingJoinFromParts` and `tableRefAliasOrName` of helpers.go.
pub mod Laws
use postgresparser.Prelude.{
  ℕ, ◌+◌, ◌-◌, Bool, true, false, ◌||◌, Option, none, some, List, [], ◌∷◌, ◌++◌, Text, codes,
  is_empty, take, drop, leb, if◌then◌else◌,
}
use postgresparser.Strings.{Unicode, to_upper, trim_space, has_prefix, split}
use postgresparser.Strings.Search.{index_of, last_index_of}
use postgresparser.Names.{trim_quotes}
use postgresparser.Ir.{TableType, base, TableRef, join, ColumnUsage, QueryFields}

unfoldable pub alias_or_name : TableRef → Text
alias_or_name t =
    if is_empty t.alias then if is_empty t.name then trim_space t.raw else t.name else t.alias

abbrev pub is_base : TableType → Bool
is_base base = true
is_base _ = false

-- The last base tables, the latest first, without the limit of two.
last_bases : List TableRef → List TableRef → List TableRef
last_bases found [] = found
last_bases found (t ∷ ts) =
    if is_base t.table_type then last_bases (t ∷ found) ts else last_bases found ts

-- `left` and `right`, the two latest base tables
two_of : List TableRef → Option (TableRef × TableRef)
two_of [] = none
two_of (right ∷ []) = none
two_of (right ∷ left ∷ ts) = some (left, right)

unfoldable pub last_two_bases : List TableRef → Option (TableRef × TableRef)
unfolding last_bases two_of
last_two_bases ts = two_of (last_bases [] ts)

using_usage : Text → Text → Text → Text → ColumnUsage
using_usage alias side context col = record {
  table_alias = alias;
  column = col;
  expression = col;
  usage_type = join;
  context = context;
  operator = [];
  side = side;
  functions = [];
}

unfoldable pub using_usages : Text → Text → Text → List Text → List ColumnUsage
unfolding using_usage
using_usages left right context [] = []
using_usages left right context (col ∷ cols) =
    let rest = using_usages left right context cols in
    if is_empty col
    then rest
    else using_usage left (codes "left") context col
      ∷ using_usage right (codes "right") context col
      ∷ rest

using_of : QueryFields → List Text → Text → Option (TableRef × TableRef) → QueryFields
unfolding using_usages
using_of result cols context none = result
using_of result cols context (some tables) = record result {
  column_usage =
      result.column_usage
      ++ using_usages (trim_quotes (alias_or_name tables.0)) (trim_quotes (alias_or_name tables.1))
          context cols;
}

-- `recordUsingJoinFromParts`; without columns nothing is added
unfoldable pub record_using_parts : QueryFields → List Text → Text → QueryFields
unfolding using_of
record_using_parts result cols context = using_of result cols context (last_two_bases result.tables)

using_cols : List Text → List Text
using_cols [] = []
using_cols (c ∷ cs) =
    let rest = using_cols cs in
    let col = trim_quotes (trim_space c) in if is_empty col then rest else col ∷ rest

-- the text between the first opening and the last closing parenthesis
body_between : Text → Option ℕ → Option ℕ → Option Text
body_between clause none finish = none
body_between clause (some start) none = none
body_between clause (some start) (some finish) =
    if leb finish start then none else some (take (finish - (start + 1)) (drop (start + 1) clause))

unfoldable pub using_columns : Text → Option (List Text)
unfolding body_between using_cols
using_columns clause =
    elim (body_between clause (index_of (codes "(") clause) (last_index_of (codes ")") clause)) [
      | none ↦ none
      | some body ↦ some (using_cols (split b',' body))
    ]

record_using_of : QueryFields → Text → Option (List Text) → QueryFields
record_using_of result clause none = result
record_using_of result clause (some cols) = record_using_parts result cols clause

module _ ⦃u : Unicode⦄ where
  -- `recordUsingJoinFromString`
  unfoldable pub record_using : QueryFields → Text → QueryFields
  unfolding record_using_of using_columns
  record_using result clause =
      if has_prefix (codes "USING") (to_upper (trim_space clause))
      then record_using_of result clause (using_columns clause)
      else result
