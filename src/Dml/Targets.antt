-- ===== src/Dml/Targets.antt =====
-- dml_common.go: `extractInsertColumns`, `extractSetClauses`, `recordSetTargetUsage`,
-- `appendReturningClause`, `appendRelationOptAlias` and `appendWhereClause`.
pub mod Laws
use postgresparser.Prelude.{
  Bool, true, false, not, Option, none, some, List, [], ◌∷◌, ◌++◌, Text, is_empty, keep,
  if◌then◌else◌,
}
use postgresparser.Strings.{Unicode, trim_space}
use postgresparser.Names.{ColumnRef, column_ref_from_parts, split_qualified_name}
use postgresparser.Ir.{
  TableType, base, TableRef, ColumnUsageType, filter, returning, ColumnUsage, QueryFields,
}
use postgresparser.Tree.{TokenStream}
use postgresparser.Syntax.{Tree, child, children, get_text, trimmed_text, optional_text, ◌&>◌}
use postgresparser.Syntax.Rules.{
  Rule, relation_expr, insert_column_item, indirection_el, attr_name, colid, set_clause, set_target,
  opt_indirection,
}
use postgresparser.Usage.Record.{add_usages, find_and_record_usage}
use postgresparser.Usage.Comparison.{find_and_record_comparisons}

-- A base table by its written name.
unfoldable pub named_table : Text → Text → TableRef
named_table written alias =
    let parts = split_qualified_name written in
    record {
      schema = parts.0;
      name = parts.1;
      alias = alias;
      table_type = base;
      raw = written;
      join_type = [];
      join_condition = [];
    }

module _ {A : Type 0} (tokens : TokenStream) where
  trimmed_texts : List (Tree A) → List Text
  trimmed_texts [] = []
  trimmed_texts (t ∷ ts) = trimmed_text tokens t ∷ trimmed_texts ts

  -- The texts of the children of the rule that are not empty.
  unfoldable pub child_texts : Rule → Tree A → List Text
  unfolding trimmed_texts
  child_texts r list = keep (λ s. not (is_empty s)) (trimmed_texts (children r list))

  -- `extractInsertColumns`
  unfoldable pub extract_insert_columns : Option (Tree A) → List Text
  unfolding child_texts
  extract_insert_columns none = []
  extract_insert_columns (some list) = child_texts insert_column_item list

  -- `extractSetClauses` on a context that is not nil
  unfoldable pub extract_set_clauses : Tree A → List Text
  unfolding child_texts
  extract_set_clauses list = child_texts set_clause list

  unfoldable pub add_set_clauses : Tree A → QueryFields → QueryFields
  unfolding extract_set_clauses
  add_set_clauses list q = record q { set_clauses = q.set_clauses ++ extract_set_clauses list }

module _ {A : Type 0} where
  trimmed_part : Option (Tree A) → List Text
  trimmed_part none = []
  trimmed_part (some t) = trim_space (get_text t) ∷ []

  attr_parts : List (Tree A) → List Text
  unfolding trimmed_part
  attr_parts [] = []
  attr_parts (el ∷ els) = trimmed_part (child attr_name el) ++ attr_parts els

  optional_parts : Option (Tree A) → List Text
  unfolding attr_parts
  optional_parts none = []
  optional_parts (some opt) = attr_parts (children indirection_el opt)

  target_parts : Tree A → List Text
  unfolding trimmed_part optional_parts
  target_parts target =
      trimmed_part (child colid target) ++ optional_parts (child opt_indirection target)

module _ {A : Type 0} (tokens : TokenStream) where
  target_usage : ColumnUsageType → Tree A → Tree A → ColumnRef → ColumnUsage
  target_usage role ctx target ref = record {
    table_alias = ref.table_alias;
    column = ref.name;
    expression = trimmed_text tokens target;
    usage_type = role;
    context = trimmed_text tokens ctx;
    operator = [];
    side = [];
    functions = [];
  }

  target_usages : ColumnUsageType → Tree A → Option (Tree A) → List ColumnUsage
  unfolding target_usage target_parts
  target_usages role ctx none = []
  target_usages role ctx (some target) =
      let ref = column_ref_from_parts (target_parts target) in
      if is_empty ref.name then [] else target_usage role ctx target ref ∷ []

  clause_usages : ColumnUsageType → List (Tree A) → List ColumnUsage
  unfolding target_usages
  clause_usages role [] = []
  clause_usages role (ctx ∷ ctxs) =
      target_usages role ctx (child set_target ctx) ++ clause_usages role ctxs

  -- `recordSetTargetUsage`
  unfoldable pub record_set_target_usage : Tree A → ColumnUsageType → QueryFields → QueryFields
  unfolding clause_usages add_usages
  record_set_target_usage list role q = add_usages (clause_usages role (children set_clause list)) q

module _ ⦃u : Unicode⦄ {A : Type 0} (tokens : TokenStream) where
  -- The targets of a list, then the columns in it.
  unfoldable pub set_usage : Tree A → ColumnUsageType → ColumnUsageType → QueryFields → QueryFields
  unfolding record_set_target_usage find_and_record_usage
  set_usage list target_role role q =
      find_and_record_usage list role (record_set_target_usage tokens list target_role q)

  -- `appendReturningClause`
  unfoldable pub add_returning : Option (Tree A) → QueryFields → QueryFields
  unfolding find_and_record_usage
  add_returning none q = q
  add_returning (some ctx) q =
      let text = trimmed_text tokens ctx in
      find_and_record_usage ctx returning
        (if is_empty text then q else record q { returnings = q.returnings ++ text ∷ [] })

  -- `appendWhereClause`
  unfoldable pub add_where : Option (Tree A) → QueryFields → QueryFields
  unfolding find_and_record_comparisons
  add_where none q = q
  add_where (some ctx) q =
      let text = trimmed_text tokens ctx in
      find_and_record_comparisons tokens ctx filter
        (if is_empty text then q else record q { wheres = q.wheres ++ text ∷ [] })

module _ {A : Type 0} (tokens : TokenStream) where
  relation_table : Tree A → Option (Tree A) → QueryFields → QueryFields
  unfolding named_table
  relation_table rel none q = q
  relation_table rel (some expr) q = record q {
    tables =
        q.tables
        ++ named_table (trimmed_text tokens expr) (optional_text tokens (child colid rel)) ∷ [];
  }

  -- `appendRelationOptAlias`
  unfoldable pub add_relation : Option (Tree A) → QueryFields → QueryFields
  unfolding relation_table
  add_relation none q = q
  add_relation (some rel) q = relation_table rel (child relation_expr rel) q
