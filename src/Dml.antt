-- ===== src/Dml.antt =====
-- dml_common.go, dml_update.go and dml_delete.go; the children are dml_insert.go and merge.go.
pub mod Targets
pub mod Insert
pub mod Merge
pub mod Laws
use postgresparser.Prelude.{Option, none, some, List, Text}
use postgresparser.Strings.{Unicode}
use postgresparser.Ir.{dml_set, ParsedQuery}
use postgresparser.Tree.{TokenStream}
use postgresparser.Query.{ctes_of, on_fields}
use postgresparser.Syntax.{Tree, child, ◌&>◌}
use postgresparser.Syntax.Rules.{
  from_clause, from_list, with_clause, opt_with_clause, set_clause_list, returning_clause,
  relation_expr_opt_alias, using_clause, where_or_current_clause,
}
use postgresparser.Select.Meaning.{Context}
use postgresparser.Select.From.{extract_from_clause, extract_from_list}
use postgresparser.Select.Cte.{add_with, cte_name_set}
use postgresparser.Dml.Targets.{set_usage, add_set_clauses, add_relation, add_where, add_returning}

module _ ⦃u : Unicode⦄ (tokens : TokenStream) where
  -- The WITH clause of a statement.
  unfoldable pub add_with_of : Context → ParsedQuery → ParsedQuery
  unfolding add_with
  add_with_of ctx result = add_with tokens (child opt_with_clause ctx &> child with_clause) result

  update_set : Option Context → ParsedQuery → ParsedQuery
  unfolding set_usage add_set_clauses on_fields
  update_set none result = result
  update_set (some list) result =
      on_fields (λ q. set_usage tokens list dml_set dml_set (add_set_clauses tokens list q)) result

  update_named : List Text → Context → ParsedQuery → ParsedQuery
  unfolding update_set add_relation add_where add_returning extract_from_clause on_fields
  update_named names ctx result =
      on_fields
        (λ q.
          add_returning tokens (child returning_clause ctx)
            (add_where tokens (child where_or_current_clause ctx) q))
        (extract_from_clause tokens names (child from_clause ctx) (
          update_set (child set_clause_list ctx)
            (on_fields (add_relation tokens (child relation_expr_opt_alias ctx)) result)))

  after_with :
      (List Text → Context → ParsedQuery → ParsedQuery) → Context → ParsedQuery → ParsedQuery
  unfolding cte_name_set
  after_with populate ctx result = populate (cte_name_set (ctes_of result)) ctx result

  -- `populateUpdate` on a context that is not nil
  unfoldable pub populate_update : ParsedQuery → Context → ParsedQuery
  unfolding add_with_of after_with update_named
  populate_update result ctx = after_with update_named ctx (add_with_of ctx result)

  delete_named : List Text → Context → ParsedQuery → ParsedQuery
  unfolding add_relation add_where add_returning extract_from_list on_fields
  delete_named names ctx result =
      on_fields
        (λ q.
          add_returning tokens (child returning_clause ctx)
            (add_where tokens (child where_or_current_clause ctx) q))
        (extract_from_list tokens names (child using_clause ctx &> child from_list)
          (on_fields (add_relation tokens (child relation_expr_opt_alias ctx)) result))

  -- `populateDelete` on a context that is not nil
  unfoldable pub populate_delete : ParsedQuery → Context → ParsedQuery
  unfolding add_with_of after_with delete_named
  populate_delete result ctx = after_with delete_named ctx (add_with_of ctx result)
