-- ===== src/Analysis/Joins.antt =====
-- analysis/join_parser.go: the direction of a foreign key, from the primary keys of a schema. A map
-- of the schema is an association list.
pub mod Laws
use postgresparser.Prelude.{
  ◌≡◌, Bool, true, false, not, ◌&&◌, Option, none, some, List, [], ◌∷◌, ◌++◌, Text, codes, dedup,
  is_empty, lookup, insert, if◌then◌else◌,
}
use postgresparser.Strings.{Unicode, to_lower, equal_fold, trim_space, split}
use postgresparser.Names.{trim_quotes}
use postgresparser.Ir.{TableType, base, TableRef}

-- `JoinRelationship` of analysis/types.go
pub record JoinRelationship : Type 0 where
  pub child_table : Text
  pub child_column : Text
  pub parent_table : Text
  pub parent_column : Text

-- What this file reads of the `ColumnSchema` of analysis/types.go.
pub record ColumnSchema : Type 0 where
  pub name : Text
  pub is_primary_key : Bool

abbrev pub SchemaMap : Type 0
SchemaMap = List (Text × List ColumnSchema)

pub record ColumnReference : Type 0 where
  pub table_alias : Text
  pub column : Text

is_base : TableType → Bool
is_base base = true
is_base _ = false

-- The last two parts of a list.
last_two : List Text → Option (Text × Text)
last_two [] = none
last_two (p ∷ []) = none
last_two (p ∷ q ∷ []) = some (p, q)
last_two (p ∷ q ∷ r ∷ ps) = last_two (q ∷ r ∷ ps)

module _ ⦃u : Unicode⦄ where
  clean_name : Text → Text
  clean_name s = to_lower (trim_quotes (trim_space s))

  add_alias : TableRef → List (Text × Text) → List (Text × Text)
  unfolding clean_name is_base
  add_alias table aliases =
      let name = clean_name table.name in
      let alias = clean_name table.alias in
      let aliased = if is_empty alias then aliases else insert alias name aliases in
      if not (is_base table.table_type)
      then aliases
      else if is_empty name
      then aliases
      else insert name name aliased

  alias_loop : List TableRef → List (Text × Text) → List (Text × Text)
  unfolding add_alias
  alias_loop [] aliases = aliases
  alias_loop (table ∷ tables) aliases = alias_loop tables (add_alias table aliases)

  -- `buildAliasMap`
  unfoldable pub build_alias_map : List TableRef → List (Text × Text)
  unfolding alias_loop
  build_alias_map tables = alias_loop tables []

  reference_of : Text → Option (Text × Text) → ColumnReference
  reference_of ref none = record { table_alias = []; column = to_lower ref }
  reference_of ref (some parts) = record {
    table_alias = to_lower parts.0;
    column = to_lower parts.1;
  }

  -- `parseColumnReference`
  unfoldable pub parse_column_reference : Text → ColumnReference
  unfolding reference_of last_two
  parse_column_reference ref =
      reference_of (trim_space ref) (last_two (split b'.' (trim_space ref)))

  or_alias : Text → Option Text → Text
  or_alias alias none = alias
  or_alias alias (some name) = name

  -- `resolveAlias`
  unfoldable pub resolve_alias : Text → List (Text × Text) → Text
  unfolding or_alias
  resolve_alias alias aliases =
      if is_empty alias then [] else or_alias alias (lookup (to_lower alias) aliases)

  -- the flag of the first column with the name
  key_flag : Text → List ColumnSchema → Bool
  key_flag column [] = false
  key_flag column (col ∷ cols) =
      let rest = key_flag column cols in
      if equal_fold col.name column then col.is_primary_key else rest

  key_flag_of : Text → Option (List ColumnSchema) → Bool
  unfolding key_flag
  key_flag_of column none = false
  key_flag_of column (some cols) = key_flag column cols

  -- `isColumnPrimaryKey`; a nil map holds no table
  unfoldable pub is_column_primary_key : Text → Text → SchemaMap → Bool
  unfolding key_flag_of
  is_column_primary_key table column schema = key_flag_of column (lookup (to_lower table) schema)

  -- `inferParentChildWithSchema`
  unfoldable pub infer_parent_child :
      Text → Text → Text → Text → SchemaMap → Option JoinRelationship
  infer_parent_child left_table left_col right_table right_col schema =
      let left_is_key = is_column_primary_key left_table left_col schema in
      let right_is_key = is_column_primary_key right_table right_col schema in
      if left_is_key && not right_is_key
      then some (record {
        child_table = right_table;
        child_column = right_col;
        parent_table = left_table;
        parent_column = left_col;
      })
      else if right_is_key && not left_is_key
      then some (record {
        child_table = left_table;
        child_column = left_col;
        parent_table = right_table;
        parent_column = right_col;
      })
      else none

  pub relationship_key : JoinRelationship → Text
  relationship_key rel =
      to_lower rel.child_table
      ++ codes "."
      ++ to_lower rel.child_column
      ++ codes "->"
      ++ to_lower rel.parent_table
      ++ codes "."
      ++ to_lower rel.parent_column

  -- `deduplicateRelationships`
  unfoldable pub deduplicate_relationships : List JoinRelationship → List JoinRelationship
  deduplicate_relationships = dedup relationship_key []
