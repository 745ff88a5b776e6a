-- ===== src/Dml/Targets/Laws.antt =====
-- The shared helpers of the statements add usages and tables behind those that are there.
use postgresparser.Prelude.{refl, Bool-cases, inl, inr, Option, none, some, is_empty}
use postgresparser.Strings.{Unicode}
use postgresparser.Ir.{ColumnUsageType, filter, returning, QueryFields}
use postgresparser.Tree.{TokenStream}
use postgresparser.Query.Grown.{
  GrownFields, fields_refl, fields_trans, unchanged-Grown, more_tables-Grown,
}
use postgresparser.Syntax.{Tree, child, trimmed_text}
use postgresparser.Syntax.Rules.{relation_expr}
use postgresparser.Usage.Record.Laws.{add_usages-Grown, find_and_record_usage-Grown}
use postgresparser.Usage.Comparison.Grown.{find_and_record_comparisons-Grown}
use postgresparser.Dml.Targets.{
  add_set_clauses, record_set_target_usage, set_usage, add_returning, add_where, relation_table,
  add_relation,
}

module _ ⦃u : Unicode⦄ {A : Type 0} (tokens : TokenStream) where
  pub add_set_clauses-Grown :
      (list : Tree A) (q : QueryFields) → GrownFields q (add_set_clauses tokens list q)
  unfolding add_set_clauses
  add_set_clauses-Grown list q = unchanged-Grown q _ refl refl refl refl

  pub set_usage-Grown :
      (list : Tree A) (target_role role : ColumnUsageType) (q : QueryFields)
      → GrownFields q (set_usage tokens list target_role role q)
  unfolding set_usage record_set_target_usage
  set_usage-Grown list target_role role q =
      fields_trans q (record_set_target_usage tokens list target_role q) _ (add_usages-Grown _ q)
        (find_and_record_usage-Grown list role _)

  pub add_returning-Grown :
      (ctx : Option (Tree A)) (q : QueryFields) → GrownFields q (add_returning tokens ctx q)
  unfolding add_returning
  add_returning-Grown none q = fields_refl q
  add_returning-Grown (some ctx) q = elim (Bool-cases (is_empty (trimmed_text tokens ctx))) [
    | inl h ↦ rw h (find_and_record_usage-Grown ctx returning q)
    | inr h ↦ rw h (
        fields_trans q _ _ (unchanged-Grown q _ refl refl refl refl)
          (find_and_record_usage-Grown ctx returning _))
  ]

  pub add_where-Grown :
      (ctx : Option (Tree A)) (q : QueryFields) → GrownFields q (add_where tokens ctx q)
  unfolding add_where
  add_where-Grown none q = fields_refl q
  add_where-Grown (some ctx) q = elim (Bool-cases (is_empty (trimmed_text tokens ctx))) [
    | inl h ↦ rw h (find_and_record_comparisons-Grown tokens ctx filter q)
    | inr h ↦ rw h (
        fields_trans q _ _ (unchanged-Grown q _ refl refl refl refl)
          (find_and_record_comparisons-Grown tokens ctx filter _))
  ]

module _ {A : Type 0} (tokens : TokenStream) where
  relation_table-Grown :
      (rel : Tree A) (expr : Option (Tree A)) (q : QueryFields)
      → GrownFields q (relation_table tokens rel expr q)
  unfolding relation_table
  relation_table-Grown rel none q = fields_refl q
  relation_table-Grown rel (some expr) q = more_tables-Grown q _

  pub add_relation-Grown :
      (rel : Option (Tree A)) (q : QueryFields) → GrownFields q (add_relation tokens rel q)
  unfolding add_relation
  add_relation-Grown none q = fields_refl q
  add_relation-Grown (some rel) q = relation_table-Grown rel (child relation_expr rel) q
