-- ===== src/Tests/Joins.antt =====
-- A schema with one primary key, and a join on it.
use postgresparser.Prelude.{true, false, [], ◌∷◌, codes}
use postgresparser.Analysis.Joins.{SchemaMap, infer_parent_child}
use postgresparser.Analysis.Joins.Laws.{IsKeyed, infer_parent_child-IsKeyed}
use postgresparser.Tests.Setup.{ascii}

abbrev users_schema : SchemaMap
users_schema =
    (codes "users", record { name = codes "id"; is_primary_key = true } ∷ [])
    ∷ (codes "orders", record { name = codes "user_id"; is_primary_key = false } ∷ [])
    ∷ []

infer_parent_child-IsKeyed_example : IsKeyed users_schema (
    infer_parent_child (codes "orders") (codes "user_id") (codes "users") (codes "id") users_schema)
infer_parent_child-IsKeyed_example =
    infer_parent_child-IsKeyed (codes "orders") (codes "user_id") (codes "users") (codes "id")
      users_schema
