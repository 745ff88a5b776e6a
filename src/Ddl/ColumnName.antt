-- ===== src/Ddl/ColumnName.antt =====
-- Column names of CREATE TABLE and how they are compared: `normalizeCreateTableColumnName`,
-- `createTablePrimaryKeyColumnSet`, `extractCreateTableColumnNames` and `normalizeSpace`.
pub mod Laws
use postgresparser.Prelude.{
  Bool, true, false, ◌&&◌, leb, Option, none, some, List, [], ◌∷◌, ◌++◌, Text, is_empty, length,
  if◌then◌else◌,
}
use postgresparser.Strings.{
  Unicode, is_space, to_lower, trim_space, has_prefix, ends_in, drop_end, undouble_char, join,
}
use postgresparser.Names.{trim_quotes}
use postgresparser.Ir.{DdlPrimaryKey}
use postgresparser.Tree.{Node, TokenStream, context_text}
use postgresparser.Ddl.Contexts.{ColumnElem, ColumnList}

-- `s[1:len(s)-1]`
inner : Text → Text
unfolding drop_end
inner [] = []
inner (c ∷ s) = drop_end s

module _ ⦃u : Unicode⦄ where
  normalize_trimmed : Text → Text
  normalize_trimmed trimmed =
      if is_empty trimmed
      then []
      else if leb 2 (length trimmed) && has_prefix (b'"' ∷ []) trimmed && ends_in b'"' trimmed
      then undouble_char b'"' (inner trimmed)
      else to_lower (trim_quotes trimmed)

  unfoldable pub normalize_column_name : Text → Text
  unfolding normalize_trimmed inner trim_quotes to_lower has_prefix ends_in undouble_char trim_space
  normalize_column_name name = normalize_trimmed (trim_space name)

  column_set : List Text → List Text
  unfolding normalize_column_name
  column_set [] = []
  column_set (col ∷ cols) =
      let rest = column_set cols in
      let normalized = normalize_column_name col in
      if is_empty normalized then rest else normalized ∷ rest

  -- `createTablePrimaryKeyColumnSet`
  unfoldable pub primary_key_column_set : Option DdlPrimaryKey → List Text
  unfolding column_set
  primary_key_column_set none = []
  primary_key_column_set (some pk) = column_set pk.columns

-- The text of a node, or what `GetText` says where that is empty.
unfoldable pub text_or_get_text : TokenStream → Node → Text
unfolding context_text
text_or_get_text tokens ctx =
    let text = context_text tokens (some ctx) in if is_empty text then trim_space ctx.text else text

-- The name of one element is added, unless it has none.
add_named : TokenStream → Option Node → List Text → List Text
unfolding text_or_get_text
add_named tokens none rest = rest
add_named tokens (some colid) rest =
    let name = text_or_get_text tokens colid in if is_empty name then rest else name ∷ rest

named_columns : TokenStream → ColumnList → List Text
unfolding add_named
named_columns tokens [] = []
named_columns tokens (none ∷ elems) = named_columns tokens elems
named_columns tokens (some elem ∷ elems) = add_named tokens elem.colid (named_columns tokens elems)

-- `extractCreateTableColumnNames`
unfoldable pub extract_column_names : TokenStream → Option ColumnList → List Text
unfolding named_columns
extract_column_names tokens none = []
extract_column_names tokens (some elems) = named_columns tokens elems

-- `extractCreateTableColumnNamesFromList`
unfoldable pub extract_column_names_from_list : TokenStream → Option (Option ColumnList) → List Text
unfolding extract_column_names
extract_column_names_from_list tokens none = []
extract_column_names_from_list tokens (some columnlist) = extract_column_names tokens columnlist
