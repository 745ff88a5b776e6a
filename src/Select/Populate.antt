-- ===== src/Select/Populate.antt =====
-- `populateSelect` and `populateSelectFromResolvedNested` of select.go, and the meaning of a select
-- in parentheses.
pub mod Laws
use postgresparser.Prelude.{Bool, true, false, Option, none, some, List, [], ◌∷◌, ◌++◌, Text}
use postgresparser.Strings.{Unicode}
use postgresparser.Errors.{Result, ok, err, ◌>>=◌}
use postgresparser.Ir.{select, QueryFields, ParsedQuery, parsed}
use postgresparser.Tree.{TokenStream}
use postgresparser.Query.{fields, ctes_of, on_fields, set_fields, add_subqueries}
use postgresparser.Entry.Statement.{new_parsed_query}
use postgresparser.SetOps.{append_set_op_tables}
use postgresparser.Syntax.{Tree, child, tree_text}
use postgresparser.Syntax.Rules.{
  opt_sort_clause, from_clause, where_clause, having_clause, group_clause,
}
use postgresparser.Select.Meaning.{
  Context, Meaning, SetOps, no_set_ops, Resolved, resolve_from_parens, resolve_select,
}
use postgresparser.Select.From.{extract_from_clause}
use postgresparser.Select.Projection.{extract_projection}
use postgresparser.Select.Clauses.{
  extract_where, extract_having, extract_group, extract_order, extract_limit,
}
use postgresparser.Select.Branches.{Scan, set_operations}
use postgresparser.Select.Cte.{add_with, cte_name_set}

-- The last steps: the operations, their tables and their subqueries.
unfoldable pub add_set_operations :
    ⦃u : Unicode⦄ → Option QueryFields → SetOps → ParsedQuery → ParsedQuery
unfolding set_fields append_set_op_tables add_subqueries
add_set_operations none found result = result
add_set_operations (some q) found result = add_subqueries found.subqueries (
    set_fields
      (append_set_op_tables (record q { set_operations = q.set_operations ++ found.ops }) found.ops
        found.leading)
      result)

module _ ⦃u : Unicode⦄ (tokens : TokenStream) where
  -- The projection and the clauses.
  unfoldable pub populate_clauses : Bool → List Text → Resolved Meaning → ParsedQuery → ParsedQuery
  unfolding extract_projection extract_from_clause extract_where extract_having extract_group
      extract_order extract_limit on_fields
  populate_clauses is_nested names r result =
      on_fields
        (λ q. extract_limit tokens is_nested r.select_ctx (
          extract_order tokens (child opt_sort_clause r.select_ctx)
            (extract_group tokens (child group_clause r.simple) q)))
        (extract_having tokens (child having_clause r.simple) (
          extract_where tokens (child where_clause r.simple) (
            extract_from_clause tokens names (child from_clause r.simple)
              (extract_projection tokens r.simple result))))

  unfoldable pub populate_operations : List Text → Context → ParsedQuery → ParsedQuery
  unfolding set_operations add_set_operations
  populate_operations names snp result =
      let scan = set_operations tokens names snp (some (fields result)) in
      add_set_operations scan.result scan.found result

  populate_named : Bool → Resolved Meaning → ParsedQuery → ParsedQuery
  unfolding populate_clauses populate_operations cte_name_set
  populate_named is_nested r result =
      let names = cte_name_set (ctes_of result) in
      populate_operations names r.select_ctx (populate_clauses is_nested names r result)

  -- `populateSelectFromResolvedNested`
  unfoldable pub populate_resolved : Bool → Resolved Meaning → ParsedQuery → ParsedQuery
  unfolding populate_named add_with
  populate_resolved is_nested r result =
      populate_named is_nested r (add_with tokens r.with_ctx result)

  -- `populateSelect` on a context that is not nil
  unfoldable pub populate_select : ParsedQuery → Context → Result ParsedQuery
  unfolding populate_resolved resolve_select
  populate_select result ctx = resolve_select ctx >>= λ r. ok (populate_resolved false r result)

  -- `buildSubqueryRef`
  unfoldable pub subquery_of : Context → Result ParsedQuery
  unfolding populate_resolved resolve_from_parens new_parsed_query
  subquery_of swp = resolve_from_parens swp >>= λ r.
      ok (populate_resolved true r (new_parsed_query select (tree_text tokens swp)))

  operations_within : Result (Resolved Meaning) → List Text → SetOps
  unfolding set_operations no_set_ops
  operations_within (err e) names = no_set_ops
  operations_within (ok r) names = (set_operations tokens names r.select_ctx none).found

  project_within : Result (Resolved Meaning) → ParsedQuery → ParsedQuery
  unfolding extract_projection
  project_within (err e) result = result
  project_within (ok r) result = extract_projection tokens r.simple result

  unfoldable pub parens_meaning : Context → Meaning
  unfolding subquery_of operations_within project_within
  parens_meaning swp = record {
    query = subquery_of swp;
    set_ops = operations_within (resolve_from_parens swp);
    project = project_within (resolve_from_parens swp);
  }
