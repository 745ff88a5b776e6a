-- ===== src/SetOps.antt =====
-- setops.go: `appendSetOpTables` and `tableKey`, the tables of the branches of a set operation.
pub mod Laws
pub mod Grown
use postgresparser.Prelude.{List, [], ◌∷◌, ◌++◌, map, Text, codes, dedup}
use postgresparser.Strings.{Unicode, to_lower}
use postgresparser.Ir.{
  TableType, base, cte, function, subquery, no_type, TableRef, SetOperation, QueryFields,
}

-- The text of a `TableType`.
type_name : TableType → Text
type_name base = codes "base"
type_name cte = codes "cte"
type_name function = codes "function"
type_name subquery = codes "subquery"
type_name no_type = []

-- The tables that `merge` is called with, in order: the leading ones, then those of each operation.
pub found_tables : List TableRef → List SetOperation → List TableRef
found_tables leading [] = leading
found_tables leading (op ∷ ops) = found_tables (leading ++ op.tables) ops

module _ ⦃u : Unicode⦄ where
  unfoldable pub table_key : TableRef → Text
  unfolding type_name
  table_key t = to_lower (
      t.schema
      ++ codes "."
      ++ t.name
      ++ codes "|"
      ++ t.alias
      ++ codes "|"
      ++ type_name t.table_type)

  -- `appendSetOpTables`; the keys that are seen first are those of the tables of the query
  unfoldable pub append_set_op_tables :
      QueryFields → List SetOperation → List TableRef → QueryFields
  append_set_op_tables result ops leading = record result {
    tables =
        result.tables ++ dedup table_key (map table_key result.tables) (found_tables leading ops);
  }
