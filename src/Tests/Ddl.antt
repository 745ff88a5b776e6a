-- ===== src/Tests/Ddl.antt =====
-- DDL statements on two tables.
use postgresparser.Prelude.{
  ◌≡◌, refl, true, false, Option, none, some, List, [], ◌∷◌, map, Fresh, All, Text, codes, arith,
}
use postgresparser.Strings.{is_space, trim_space}
use postgresparser.Names.Print.{plain, print, IsPrintable}
use postgresparser.Ir.{DdlPrimaryKey, DdlForeignKey, unset}
use postgresparser.Tree.{context_text}
use postgresparser.Ddl.Contexts.{TableElement}
use postgresparser.Ddl.Constraints.{create_table_constraints}
use postgresparser.Ddl.Constraints.Laws.{first, declared_keys, create_table_constraints-first}
use postgresparser.Ddl.Create.{create_table_columns}
use postgresparser.Ddl.Create.Laws.{
  name_and_nullable, declared_columns, create_table_columns-declared,
}
use postgresparser.Ddl.Statements.{populate_truncate}
use postgresparser.Ddl.Statements.Truncate.{
  Relation, in_schema, bare, relation_text, Truncates, populate_truncate-Truncates,
}
use postgresparser.Ddl.Alter.{column_key, constraint_columns, cmds_actions}
use postgresparser.Ddl.Alter.Laws.{IsOn, cmds_actions-IsOn, constraint_columns-Fresh}
use postgresparser.Tests.Setup.{
  ascii, stream, node_at, column_element, unique_elem, unique_element, users, orders, truncate_two,
  drop_id, empty_query,
}

abbrev id_key : DdlPrimaryKey
id_key = record { constraint_name = []; columns = codes "\"Id\"" ∷ codes "ID" ∷ [] }

abbrev id_reference : DdlForeignKey
id_reference = record {
  constraint_name = [];
  columns = codes "id" ∷ codes "other" ∷ [];
  references_schema = [];
  references_table = codes "orders";
  references_columns = [];
  on_delete = unset;
  on_update = unset;
}

-- `CONSTRAINT orders PRIMARY KEY ("Id")`
abbrev key_element : TableElement
key_element = record {
  column_def = none;
  table_constraint = some (record {
    name = some (node_at 2);
    elem = some (record unique_elem { primary_kw = true; key_kw = true; unique_kw = false });
  });
}

abbrev keyed_elements : List (Option TableElement)
keyed_elements = some unique_element ∷ none ∷ some key_element ∷ some column_element ∷ []

create_table_constraints-first_example :
    (create_table_constraints stream keyed_elements).primary_key
    ≡ first (declared_keys stream keyed_elements)
create_table_constraints-first_example = create_table_constraints-first stream keyed_elements

create_table_columns-declared_example :
    map
      (name_and_nullable stream)
      (create_table_columns stream (codes "Id" ∷ []) [] (none ∷ some column_element ∷ []))
    ≡ declared_columns stream (codes "Id" ∷ []) (none ∷ some column_element ∷ [])
create_table_columns-declared_example =
    create_table_columns-declared stream (codes "Id" ∷ []) [] (none ∷ some column_element ∷ [])

abbrev relations : List Relation
relations =
    in_schema (plain (codes "public")) (plain (codes "users")) ∷ bare (plain (codes "orders")) ∷ []

abbrev PlainFits : Text → Type 0
PlainFits s = IsPrintable (plain s)

public_fits : PlainFits (codes "public")
public_fits = (ground arith, ground arith, unfold is_space in (refl, refl))

users_fits : PlainFits (codes "users")
users_fits = (ground arith, ground arith, unfold is_space in (refl, refl))

orders_fits : PlainFits (codes "orders")
orders_fits = (ground arith, ground arith, unfold is_space in (refl, refl))

users_text :
    context_text stream (some (node_at 0))
    ≡ relation_text (in_schema (plain (codes "public")) (plain (codes "users")))
unfolding context_text trim_space print
users_text = refl

orders_text : context_text stream (some (node_at 2)) ≡ relation_text (bare (plain (codes "orders")))
unfolding context_text trim_space print
orders_text = refl

populate_truncate-Truncates_example :
    Truncates empty_query relations (populate_truncate stream empty_query (some truncate_two))
populate_truncate-Truncates_example =
    populate_truncate-Truncates stream empty_query truncate_two (users ∷ orders ∷ []) relations refl
      ((users_text, (public_fits, users_fits)), ((orders_text, orders_fits), tt))

cmds_actions-IsOn_example :
    All
      (IsOn (codes "public") (codes "users"))
      (cmds_actions stream (codes "public") (codes "users") (some drop_id ∷ []))
cmds_actions-IsOn_example =
    cmds_actions-IsOn stream (codes "public") (codes "users") (some drop_id ∷ [])

constraint_columns-Fresh_example :
    Fresh [] (map column_key (constraint_columns (some id_key) (id_reference ∷ [])))
constraint_columns-Fresh_example = constraint_columns-Fresh (some id_key) (id_reference ∷ [])
