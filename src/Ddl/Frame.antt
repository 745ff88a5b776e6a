-- ===== src/Ddl/Frame.antt =====
-- What a DDL statement changes: it adds tables and actions, and touches nothing else.
use postgresparser.Prelude.{
  ◌≡◌, refl, Bool, Option, none, some, List, [], ◌++◌, append-nil, Bool-cases, inl, inr,
}
use postgresparser.Strings.{Unicode}
use postgresparser.Errors.{Result, ok, err}
use postgresparser.Ir.{QueryFields, TableRef, DdlAction}
use postgresparser.Tree.{TokenStream}
use postgresparser.Ddl.Contexts.{
  CreateStmt, ObjectType, DropStmt, AlterTableStmt, IndexStmt, TruncateStmt,
}
use postgresparser.Ddl.Create.{populate_create_table}
use postgresparser.Ddl.Statements.{
  drop_objects, drop_object_of, populate_drop_stmt, populate_create_index, populate_truncate,
}
use postgresparser.Ddl.Alter.{populate_alter_table}

pub record Extends (before after : QueryFields) : Type 0 where
  pub tables : List TableRef
  pub actions : List DdlAction
  pub rest_same : after ≡ record before {
    tables = before.tables ++ tables;
    ddl_actions = before.ddl_actions ++ actions;
  }

-- A result that, if there is one, extends the query.
abbrev pub Adds : QueryFields → Result QueryFields → Type 0
Adds before (ok after) = Extends before after
Adds before (err e) = ⊥

Extends-same : (q : QueryFields) → Extends q q
Extends-same q = record { tables = []; actions = []; rest_same = rw (append-nil, append-nil) }

pub Extends-actions :
    (q : QueryFields) (acts : List DdlAction)
    → Extends q (record q { ddl_actions = q.ddl_actions ++ acts })
Extends-actions q acts = record { tables = []; actions = acts; rest_same = rw append-nil }

pub Extends-both :
    (q : QueryFields) (ts : List TableRef) (acts : List DdlAction)
    → Extends q (record q { tables = q.tables ++ ts; ddl_actions = q.ddl_actions ++ acts })
Extends-both q ts acts = record { tables = ts; actions = acts; rest_same = refl }

module _ ⦃u : Unicode⦄ (tokens : TokenStream) (q : QueryFields) where
  pub create_table-Adds :
      (comments : Bool) (ctx : CreateStmt)
      → Adds q (populate_create_table tokens comments q (some ctx))
  unfolding populate_create_table
  create_table-Adds comments ctx = elim (Bool-cases ctx.table_kw) [
    | inl t ↦ rw t (Extends-both q _ _)
    | inr f ↦ rw f (Extends-same q)
  ]

  pub alter_table-Adds : (ctx : AlterTableStmt) → Adds q (populate_alter_table tokens q (some ctx))
  unfolding populate_alter_table
  alter_table-Adds ctx = elim (Bool-cases ctx.table_kw) [
    | inl t ↦ rw t (Extends-both q _ _)
    | inr f ↦ rw f (Extends-same q)
  ]

  drop_objects_adds :
      (ctx : DropStmt) (obj : ObjectType) → Extends q (drop_objects tokens q ctx obj)
  unfolding drop_objects
  drop_objects_adds ctx obj = elim (Bool-cases obj.table_kw) [
    | inl t ↦ rw t (Extends-both q _ _)
    | inr f ↦ rw f (elim (Bool-cases obj.index_kw) [
      | inl t ↦ rw t (Extends-actions q _)
      | inr g ↦ rw g (Extends-same q)
    ])
  ]

  drop_object_of_adds :
      (ctx : DropStmt) (obj : Option ObjectType) → Extends q (drop_object_of tokens q ctx obj)
  unfolding drop_object_of
  drop_object_of_adds ctx none = Extends-same q
  drop_object_of_adds ctx (some obj) = drop_objects_adds ctx obj

  pub drop_stmt-Adds : (ctx : DropStmt) → Adds q (populate_drop_stmt tokens q (some ctx))
  unfolding populate_drop_stmt
  drop_stmt-Adds ctx = elim (Bool-cases ctx.concurrently_kw) [
    | inl t ↦ simp t (Extends-actions q _)
    | inr f ↦ simp f (drop_object_of_adds ctx ctx.object_type)
  ]

  pub create_index-Adds : (ctx : IndexStmt) → Adds q (populate_create_index tokens q (some ctx))
  unfolding populate_create_index
  create_index-Adds ctx = Extends-both q _ _

  pub truncate-Adds : (ctx : TruncateStmt) → Adds q (populate_truncate tokens q (some ctx))
  unfolding populate_truncate
  truncate-Adds ctx = Extends-both q _ _
