-- ===== src/Tests/SetOps.antt =====
-- A query on one table, with a set operation on that table and another one.
use postgresparser.Prelude.{◌≡◌, ◌||◌, List, [], ◌∷◌, ◌++◌, map, contains, Fresh, Text, codes}
use postgresparser.Ir.{base_table, TableRef, SetOperation, QueryFields}
use postgresparser.SetOps.{found_tables, table_key, append_set_op_tables}
use postgresparser.SetOps.Laws.{append_set_op_tables-Fresh}
use postgresparser.Tests.Setup.{ascii, empty_query}

abbrev users_table : TableRef
users_table = base_table (codes "public") (codes "Users") (codes "public.Users")

abbrev orders_table : TableRef
orders_table = base_table [] (codes "orders") (codes "orders")

abbrev users_query : QueryFields
users_query = record empty_query { tables = users_table ∷ [] }

abbrev union : SetOperation
union = record {
  op_type = codes "UNION";
  query = [];
  columns = [];
  tables = users_table ∷ orders_table ∷ [];
}

append_set_op_tables-Fresh_example :
    (added : List TableRef) × (append_set_op_tables users_query (union ∷ []) (orders_table ∷ [])
      ≡ record users_query { tables = users_query.tables ++ added })
    × Fresh (map table_key users_query.tables) (map table_key added)
    × ((key : Text)
        → (contains (map table_key users_query.tables) key
            || contains (map table_key (found_tables (orders_table ∷ []) (union ∷ []))) key)
          ≡ (contains (map table_key users_query.tables) key || contains (map table_key added) key))
append_set_op_tables-Fresh_example =
    append_set_op_tables-Fresh users_query (union ∷ []) (orders_table ∷ [])
