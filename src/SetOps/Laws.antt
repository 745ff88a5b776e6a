-- ===== src/SetOps/Laws.antt =====
-- No table is added twice, and none is lost.
use postgresparser.Prelude.{
  ◌≡◌, refl, ◌||◌, List, ◌++◌, map, Text, contains, dedup, Fresh, dedup-Fresh, dedup_covers,
}
use postgresparser.Strings.{Unicode}
use postgresparser.Ir.{TableRef, SetOperation, QueryFields}
use postgresparser.SetOps.{found_tables, table_key, append_set_op_tables}

module _ ⦃u : Unicode⦄ (result : QueryFields) (ops : List SetOperation)
    (leading : List TableRef) where
  -- The tables of set operations are added behind those of the query, and nothing else changes; the
  -- keys of the added tables differ from each other and from those of the query, and a key of a
  -- leading table or of a table of an operation is not lost.
  pub append_set_op_tables-Fresh :
      (added : List TableRef) × (append_set_op_tables result ops leading
        ≡ record result { tables = result.tables ++ added })
      × Fresh (map table_key result.tables) (map table_key added)
      × ((key : Text)
          → (contains (map table_key result.tables) key
              || contains (map table_key (found_tables leading ops)) key)
            ≡ (contains (map table_key result.tables) key || contains (map table_key added) key))
  unfolding append_set_op_tables
  append_set_op_tables-Fresh =
      let seen = map table_key result.tables in
      let found = found_tables leading ops in
      (
        dedup table_key seen found,
        refl,
        dedup-Fresh table_key seen found,
        dedup_covers table_key seen found,
      )
