-- ===== src/Ddl/Statements.antt =====
-- DROP, CREATE INDEX and TRUNCATE: `populateDropStmt`, `populateCreateIndex` and `populateTruncate`.
-- `copyFlags` copies a slice, which as a value is the same list.
pub mod Laws
pub mod Truncate
use postgresparser.Prelude.{
  Bool, true, false, ◌&&◌, Option, none, some, List, [], ◌∷◌, ◌++◌, map, Text, codes, is_empty,
  if◌then◌else◌,
}
use postgresparser.Errors.{Result, ok, err, nil_context}
use postgresparser.Names.{split_qualified_name}
use postgresparser.Ir.{
  QueryFields, TableRef, base_table, DdlActionType, DdlAction, new_action, drop_table, drop_index,
  create_index, truncate,
}
use postgresparser.Tree.{Node, TokenStream, is_present, context_text}
use postgresparser.Ddl.Contexts.{
  DropBehavior, RelationExpr, ObjectType, DropStmt, IndexStmt, RestartSeqs, TruncateStmt,
}

-- CASCADE or RESTRICT
unfoldable pub behavior_flags : Option DropBehavior → List Text
behavior_flags none = []
behavior_flags (some db) =
    if db.cascade_kw
    then codes "CASCADE" ∷ []
    else if db.restrict_kw
    then codes "RESTRICT" ∷ []
    else []

-- a flag that is set by a test
abbrev pub flag : Bool → Text → List Text
flag test name = if test then name ∷ [] else []

-- The action on one named object.
unfoldable pub drop_action : DdlActionType → List Text → Text → DdlAction
drop_action t flags raw = record (new_action t) {
  object_name = (split_qualified_name raw).1;
  schema = (split_qualified_name raw).0;
  flags = flags;
}

-- The table that a text names.
unfoldable pub named_table : Text → TableRef
named_table raw = base_table (split_qualified_name raw).0 (split_qualified_name raw).1 raw

module _ (tokens : TokenStream) where
  name_texts : List Node → List Text
  name_texts = map (λ n. context_text tokens (some n))

  unfoldable pub drop_flags : DropStmt → List Text
  unfolding behavior_flags
  drop_flags ctx =
      flag (ctx.if_kw && ctx.exists_kw) (codes "IF_EXISTS")
      ++ behavior_flags ctx.drop_behavior
      ++ flag ctx.concurrently_kw (codes "CONCURRENTLY")

  any_names : Option (List Node) → List Text
  unfolding name_texts
  any_names none = []
  any_names (some names) = name_texts names

  -- DROP TABLE and DROP INDEX; other object types leave no trace
  unfoldable pub drop_objects : QueryFields → DropStmt → ObjectType → QueryFields
  unfolding any_names drop_action named_table
  drop_objects result ctx obj =
      let names = any_names ctx.any_name_list in
      if obj.table_kw
      then record result {
        ddl_actions = result.ddl_actions ++ map (drop_action drop_table (drop_flags ctx)) names;
        tables = result.tables ++ map named_table names;
      }
      else if obj.index_kw
      then record result {
        ddl_actions = result.ddl_actions ++ map (drop_action drop_index (drop_flags ctx)) names;
      }
      else result

  unfoldable pub drop_object_of : QueryFields → DropStmt → Option ObjectType → QueryFields
  unfolding drop_objects
  drop_object_of result ctx none = result
  drop_object_of result ctx (some obj) = drop_objects result ctx obj

  unfoldable pub populate_drop_stmt : QueryFields → Option DropStmt → Result QueryFields
  unfolding drop_object_of drop_flags
  populate_drop_stmt result none = err (nil_context (codes "drop statement"))
  populate_drop_stmt result (some ctx) =
      if ctx.concurrently_kw
      then ok (record result {
        ddl_actions =
            result.ddl_actions
            ++ map (drop_action drop_index (drop_flags ctx)) (any_names ctx.any_name_list);
      })
      else ok (drop_object_of result ctx ctx.object_type)

  -- `extractRelationExprNameParts`: the raw text, the schema and the name
  unfoldable pub relation_name_parts : RelationExpr → Text × Text × Text
  relation_name_parts rel =
      let raw = context_text tokens (some rel.node) in
      elim rel.qualified_name [
        | some q ↦ (
          raw,
          (split_qualified_name (context_text tokens (some q))).0,
          (split_qualified_name (context_text tokens (some q))).1,
        )
        | none ↦ (raw, (split_qualified_name raw).0, (split_qualified_name raw).1)
      ]

  unfoldable pub relation_table : RelationExpr → TableRef
  unfolding relation_name_parts
  relation_table rel = let parts = relation_name_parts rel in base_table parts.1 parts.2 parts.0

  index_columns : List Node → List Text
  index_columns [] = []
  index_columns (elem ∷ elems) =
      let rest = index_columns elems in
      let text = context_text tokens (some elem) in if is_empty text then rest else text ∷ rest

  relation_tables : Option RelationExpr → List TableRef
  unfolding relation_table
  relation_tables none = []
  relation_tables (some rel) = relation_table rel ∷ []

  relation_schema : Option RelationExpr → Text
  unfolding relation_name_parts
  relation_schema none = []
  relation_schema (some rel) = (relation_name_parts rel).1

  access_method_text : Option (Option Node) → Text
  access_method_text none = []
  access_method_text (some none) = []
  access_method_text (some (some name)) = context_text tokens (some name)

  unfoldable pub populate_create_index : QueryFields → Option IndexStmt → Result QueryFields
  unfolding relation_tables relation_schema index_columns access_method_text
  populate_create_index result none = err (nil_context (codes "create index statement"))
  populate_create_index result (some ctx) =
      let (schema, name) = split_qualified_name (context_text tokens ctx.index_name) in
      ok (record result {
        tables = result.tables ++ relation_tables ctx.relation_expr;
        ddl_actions =
            result.ddl_actions
            ++ record (new_action create_index) {
              object_name = name;
              schema = if is_empty schema then relation_schema ctx.relation_expr else schema;
              columns = elim ctx.index_params [ none ↦ [] | some elems ↦ index_columns elems ];
              flags =
                  flag ctx.concurrently_kw (codes "CONCURRENTLY")
                  ++ flag ctx.unique_kw (codes "UNIQUE")
                  ++ flag (ctx.if_kw && ctx.not_kw && ctx.exists_kw) (codes "IF_NOT_EXISTS");
              index_type = access_method_text ctx.access_method;
            }
              ∷ [];
      })

  restart_flags : Option RestartSeqs → List Text
  restart_flags none = []
  restart_flags (some rs) =
      if rs.restart_kw
      then codes "RESTART_IDENTITY" ∷ []
      else if rs.continue_kw
      then codes "CONTINUE_IDENTITY" ∷ []
      else []

  truncate_action : List Text → RelationExpr → DdlAction
  unfolding relation_name_parts
  truncate_action flags rel =
      let parts = relation_name_parts rel in
      record (new_action truncate) { object_name = parts.2; schema = parts.1; flags = flags }

  truncated : Option (List RelationExpr) → List RelationExpr
  truncated none = []
  truncated (some rels) = rels

  unfoldable pub populate_truncate : QueryFields → Option TruncateStmt → Result QueryFields
  unfolding restart_flags truncate_action truncated relation_table
  populate_truncate result none = err (nil_context (codes "truncate statement"))
  populate_truncate result (some ctx) =
      let flags = restart_flags ctx.restart_seqs ++ behavior_flags ctx.drop_behavior in
      let rels = truncated ctx.relation_expr_list in
      ok (record result {
        ddl_actions = result.ddl_actions ++ map (truncate_action flags) rels;
        tables = result.tables ++ map relation_table rels;
      })
