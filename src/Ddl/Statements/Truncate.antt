-- ===== src/Ddl/Statements/Truncate.antt =====
-- TRUNCATE names exactly the tables that its text names.
use postgresparser.Prelude.{
  ◌≡◌, refl, ap, ◌∙◌, Option, none, some, List, [], ◌∷◌, ◌++◌, map, Text, All,
}
use postgresparser.Names.{split_qualified_name}
use postgresparser.Names.Print.{Name, print, IsPrintable}
use postgresparser.Names.RoundTrip.{split_qualified_name-join, split_qualified_name-print}
use postgresparser.Errors.{Result, ok}
use postgresparser.Ir.{QueryFields, TableRef, DdlAction, truncate}
use postgresparser.Tree.{Node, TokenStream, context_text}
use postgresparser.Ddl.Contexts.{RelationExpr, TruncateStmt}
use postgresparser.Ddl.Statements.{
  relation_name_parts, relation_table, truncate_action, restart_flags, behavior_flags, truncated,
  populate_truncate,
}
use postgresparser.Ddl.Statements.Laws.{action_name, table_name}

-- A table as SQL names it, with a schema or without.
pub data Relation : Type 0 where
  in_schema : Name → Name → Relation
  bare : Name → Relation

abbrev pub relation_text : Relation → Text
relation_text (in_schema schema name) = print schema ++ b'.' ∷ print name
relation_text (bare name) = print name

abbrev pub relation_pair : Relation → Text × Text
relation_pair (in_schema schema name) = (print schema, print name)
relation_pair (bare name) = ([], print name)

abbrev pub IsPrintableRelation : Relation → Type 0
IsPrintableRelation (in_schema schema name) = IsPrintable schema × IsPrintable name
IsPrintableRelation (bare name) = IsPrintable name

-- Where the name of a relation expression stands: its qualified name, or else the whole of it.
abbrev pub name_node : Node → Option Node → Node
name_node whole none = whole
name_node whole (some qualified) = qualified

abbrev pub IsWrittenAs : TokenStream → RelationExpr → Relation → Type 0
IsWrittenAs tokens rel r =
    (context_text tokens (some (name_node rel.node rel.qualified_name)) ≡ relation_text r)
    × IsPrintableRelation r

-- The relation expressions are written as those relations, one each.
abbrev pub AreWrittenAs : TokenStream → List RelationExpr → List Relation → Type 0
AreWrittenAs tokens [] [] = Unit
AreWrittenAs tokens (rel ∷ rels) (r ∷ rs) = IsWrittenAs tokens rel r × AreWrittenAs tokens rels rs
AreWrittenAs tokens _ _ = ⊥

-- What a statement added for those relations.
pub record Truncates (before : QueryFields) (rs : List Relation) (after : Result QueryFields)
    : Type 0 where
  pub tables : List TableRef
  pub actions : List DdlAction
  pub added :
      after
      ≡ ok (record before {
        tables = before.tables ++ tables;
        ddl_actions = before.ddl_actions ++ actions;
      })
  pub tables_named : map table_name tables ≡ map relation_pair rs
  pub actions_named : map action_name actions ≡ map relation_pair rs
  pub action_types : All (λ (a : DdlAction). a.action_type ≡ truncate) actions

split_relation :
    (r : Relation)
    → IsPrintableRelation r
    → split_qualified_name (relation_text r) ≡ relation_pair r
split_relation (in_schema schema name) h = split_qualified_name-join schema name h.0 h.1
split_relation (bare name) h = split_qualified_name-print name h

abbrev pair_of : Text × Text × Text → Text × Text
pair_of parts = (parts.1, parts.2)

module _ (tokens : TokenStream) where
  parts_pair :
      (rel : RelationExpr) (qualified : Option Node)
      → pair_of (elim qualified [
        | some q ↦ (
          context_text tokens (some rel.node),
          (split_qualified_name (context_text tokens (some q))).0,
          (split_qualified_name (context_text tokens (some q))).1,
        )
        | none ↦ (
          context_text tokens (some rel.node),
          (split_qualified_name (context_text tokens (some rel.node))).0,
          (split_qualified_name (context_text tokens (some rel.node))).1,
        )
      ])
        ≡ split_qualified_name (context_text tokens (some (name_node rel.node qualified)))
  parts_pair rel none = refl
  parts_pair rel (some q) = refl

  relation_parts :
      (rel : RelationExpr) (r : Relation)
      → IsWrittenAs tokens rel r
      → pair_of (relation_name_parts tokens rel) ≡ relation_pair r
  unfolding relation_name_parts
  relation_parts rel r h =
      parts_pair rel rel.qualified_name ∙ ap split_qualified_name h.0 ∙ split_relation r h.1

  truncated_tables :
      (rels : List RelationExpr) (rs : List Relation)
      → AreWrittenAs tokens rels rs
      → map table_name (map (relation_table tokens) rels) ≡ map relation_pair rs
  unfolding relation_table
  truncated_tables [] [] h = refl
  truncated_tables (rel ∷ rels) (r ∷ rs) h =
      λ i. relation_parts rel r h.0 i ∷ truncated_tables rels rs h.1 i
  truncated_tables [] (r ∷ rs) h = elim h [ ]
  truncated_tables (rel ∷ rels) [] h = elim h [ ]

  truncated_actions :
      (flags : List Text) (rels : List RelationExpr) (rs : List Relation)
      → AreWrittenAs tokens rels rs
      → map action_name (map (truncate_action tokens flags) rels) ≡ map relation_pair rs
  unfolding truncate_action
  truncated_actions flags [] [] h = refl
  truncated_actions flags (rel ∷ rels) (r ∷ rs) h =
      λ i. relation_parts rel r h.0 i ∷ truncated_actions flags rels rs h.1 i
  truncated_actions flags [] (r ∷ rs) h = elim h [ ]
  truncated_actions flags (rel ∷ rels) [] h = elim h [ ]

  truncated_types :
      (flags : List Text) (rels : List RelationExpr)
      → All (λ (a : DdlAction). a.action_type ≡ truncate) (map (truncate_action tokens flags) rels)
  unfolding truncate_action
  truncated_types flags [] = tt
  truncated_types flags (rel ∷ rels) = (refl, truncated_types flags rels)

  -- For relations that are written with a schema or without, in plain or quoted names, TRUNCATE
  -- succeeds and changes only the tables and the actions: it adds one table and one TRUNCATE action
  -- for each relation, in their order, each with the schema and the name that are written.
  pub populate_truncate-Truncates :
      (q : QueryFields) (ctx : TruncateStmt) (rels : List RelationExpr) (rs : List Relation)
      → ctx.relation_expr_list ≡ some rels
      → AreWrittenAs tokens rels rs
      → Truncates q rs (populate_truncate tokens q (some ctx))
  unfolding populate_truncate truncated
  populate_truncate-Truncates q ctx rels rs listed h =
      let flags = restart_flags tokens ctx.restart_seqs ++ behavior_flags ctx.drop_behavior in
      record {
        tables = map (relation_table tokens) rels;
        actions = map (truncate_action tokens flags) rels;
        added = simp (listed, truncated);
        tables_named = truncated_tables rels rs h;
        actions_named = truncated_actions flags rels rs h;
        action_types = truncated_types flags rels;
      }
