-- ===== src/Ddl/Statements/Laws.antt =====
-- The actions of DROP TABLE name the tables that the statements add.
use postgresparser.Prelude.{◌≡◌, refl, true, false, List, [], ◌∷◌, ◌++◌, map, Text, some}
use postgresparser.Errors.{Result, ok}
use postgresparser.Ir.{QueryFields, TableRef, drop_table, DdlAction}
use postgresparser.Tree.{TokenStream}
use postgresparser.Ddl.Contexts.{DropStmt, ObjectType}
use postgresparser.Ddl.Statements.{
  drop_action, named_table, any_names, drop_flags, drop_objects, drop_object_of, populate_drop_stmt,
}

abbrev pub action_name : DdlAction → Text × Text
action_name a = (a.schema, a.object_name)

abbrev pub table_name : TableRef → Text × Text
table_name t = (t.schema, t.name)

map_agree {ℓ} :
    {A : Type ℓ} (f : A → DdlAction) (g : A → TableRef) (xs : List A)
    → ((x : A) → action_name (f x) ≡ table_name (g x))
    → map action_name (map f xs) ≡ map table_name (map g xs)
map_agree f g [] h = refl
map_agree f g (x ∷ xs) h = λ i. h x i ∷ map_agree f g xs h i

-- What a statement added, where the names of its actions are those of its tables.
pub record AddsNamed (before : QueryFields) (after : Result QueryFields) : Type 0 where
  pub tables : List TableRef
  pub actions : List DdlAction
  pub added :
      after
      ≡ ok (record before {
        tables = before.tables ++ tables;
        ddl_actions = before.ddl_actions ++ actions;
      })
  pub same_names : map action_name actions ≡ map table_name tables

module _ (tokens : TokenStream) (q : QueryFields) where
  -- DROP TABLE succeeds and changes only the tables and the actions; it adds one action for each
  -- table that it adds, in the same order and with the same schema and name.
  pub drop_table_names :
      (ctx : DropStmt) (obj : ObjectType)
      → ctx.concurrently_kw ≡ false
      → ctx.object_type ≡ some obj
      → obj.table_kw ≡ true
      → AddsNamed q (populate_drop_stmt tokens q (some ctx))
  unfolding populate_drop_stmt
  drop_table_names ctx obj h o t = record {
    tables = map named_table (any_names tokens ctx.any_name_list);
    actions =
        map (drop_action drop_table (drop_flags tokens ctx)) (any_names tokens ctx.any_name_list);
    added = simp (h, o, drop_object_of, drop_objects, t);
    same_names =
        map_agree (drop_action drop_table (drop_flags tokens ctx)) named_table
          (any_names tokens ctx.any_name_list) (λ x. refl);
  }
