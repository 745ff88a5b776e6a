-- ===== src/Dml/Laws.antt =====
-- UPDATE and DELETE add to the query that they are given.
use postgresparser.Prelude.{Option, none, some, List, Text}
use postgresparser.Strings.{Unicode}
use postgresparser.Ir.{dml_set, ParsedQuery}
use postgresparser.Tree.{TokenStream}
use postgresparser.Query.{ctes_of, on_fields}
use postgresparser.Query.Grown.{Grown, Grown-refl, Grown-trans, on_fields-Grown, fields_trans}
use postgresparser.Syntax.{child, ◌&>◌}
use postgresparser.Syntax.Rules.{
  from_clause, from_list, with_clause, opt_with_clause, set_clause_list, returning_clause,
  relation_expr_opt_alias, using_clause, where_or_current_clause,
}
use postgresparser.Select.Meaning.{Context}
use postgresparser.Select.From.{extract_from_clause, extract_from_list}
use postgresparser.Select.From.Laws.{extract_from_clause-Grown, extract_from_list-Grown}
use postgresparser.Select.Cte.{cte_name_set}
use postgresparser.Select.Populate.Laws.{add_with-Grown}
use postgresparser.Dml.Targets.{add_set_clauses, add_where, add_relation, add_returning}
use postgresparser.Dml.Targets.Laws.{
  add_set_clauses-Grown, set_usage-Grown, add_returning-Grown, add_where-Grown, add_relation-Grown,
}
use postgresparser.Dml.{
  add_with_of, update_set, update_named, after_with, populate_update, delete_named, populate_delete,
}

module _ ⦃u : Unicode⦄ (tokens : TokenStream) where
  add_with_of-Grown : (ctx : Context) (q : ParsedQuery) → Grown q (add_with_of tokens ctx q)
  unfolding add_with_of
  add_with_of-Grown ctx q = add_with-Grown tokens (child opt_with_clause ctx &> child with_clause) q

  update_set-Grown : (list : Option Context) (q : ParsedQuery) → Grown q (update_set tokens list q)
  unfolding update_set
  update_set-Grown none q = Grown-refl q
  update_set-Grown (some list) q = on_fields-Grown _ q (λ k.
      fields_trans k (add_set_clauses tokens list k) _ (add_set_clauses-Grown tokens list k)
        (set_usage-Grown tokens list dml_set dml_set _))

  -- The predicate and RETURNING, which end both statements.
  tail-Grown :
      (ctx : Context) (q : ParsedQuery)
      → Grown q (
          on_fields
            (λ k.
              add_returning tokens
                (child returning_clause ctx)
                (add_where tokens (child where_or_current_clause ctx) k))
            q)
  tail-Grown ctx q = on_fields-Grown _ q (λ k.
      fields_trans k (add_where tokens (child where_or_current_clause ctx) k) _
        (add_where-Grown tokens (child where_or_current_clause ctx) k)
        (add_returning-Grown tokens (child returning_clause ctx) _))

  update_named-Grown :
      (names : List Text) (ctx : Context) (q : ParsedQuery)
      → Grown q (update_named tokens names ctx q)
  unfolding update_named
  update_named-Grown names ctx q =
      Grown-trans q (on_fields (add_relation tokens (child relation_expr_opt_alias ctx)) q) _
        (on_fields-Grown _ q (add_relation-Grown tokens (child relation_expr_opt_alias ctx)))
        (Grown-trans _ (update_set tokens (child set_clause_list ctx) _) _
          (update_set-Grown (child set_clause_list ctx) _)
          (Grown-trans _ (extract_from_clause tokens names (child from_clause ctx) _) _
            (extract_from_clause-Grown tokens names (child from_clause ctx) _) (tail-Grown ctx _)))

  delete_named-Grown :
      (names : List Text) (ctx : Context) (q : ParsedQuery)
      → Grown q (delete_named tokens names ctx q)
  unfolding delete_named
  delete_named-Grown names ctx q =
      Grown-trans q (on_fields (add_relation tokens (child relation_expr_opt_alias ctx)) q) _
        (on_fields-Grown _ q (add_relation-Grown tokens (child relation_expr_opt_alias ctx)))
        (Grown-trans _
          (extract_from_list tokens names (child using_clause ctx &> child from_list) _) _
          (extract_from_list-Grown tokens names (child using_clause ctx &> child from_list) _)
          (tail-Grown ctx _))

  pub populate_update-Grown :
      (q : ParsedQuery) (ctx : Context) → Grown q (populate_update tokens q ctx)
  unfolding populate_update after_with
  populate_update-Grown q ctx =
      Grown-trans q (add_with_of tokens ctx q) _ (add_with_of-Grown ctx q)
        (update_named-Grown (cte_name_set (ctes_of (add_with_of tokens ctx q))) ctx _)

  pub populate_delete-Grown :
      (q : ParsedQuery) (ctx : Context) → Grown q (populate_delete tokens q ctx)
  unfolding populate_delete after_with
  populate_delete-Grown q ctx =
      Grown-trans q (add_with_of tokens ctx q) _ (add_with_of-Grown ctx q)
        (delete_named-Grown (cte_name_set (ctes_of (add_with_of tokens ctx q))) ctx _)
