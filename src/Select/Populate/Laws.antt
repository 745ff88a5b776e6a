-- ===== src/Select/Populate/Laws.antt =====
-- A SELECT adds to the query that it is given.
use postgresparser.Prelude.{refl, false, Bool, Option, none, some, List, Text}
use postgresparser.Strings.{Unicode}
use postgresparser.Errors.{Result, ok, err, ◌>>=◌}
use postgresparser.Ir.{QueryFields, ParsedQuery}
use postgresparser.Tree.{TokenStream}
use postgresparser.Query.{fields, ctes_of, set_fields, add_ctes}
use postgresparser.Query.Grown.{
  Grown, GrownResult, fields_trans, Grown-refl, Grown-trans, unchanged-Grown, on_fields-Grown,
  set_fields-Grown, add_subqueries-Grown, add_ctes-Grown, add_tables-Grown,
}
use postgresparser.SetOps.{append_set_op_tables}
use postgresparser.SetOps.Grown.{append_set_op_tables-Grown}
use postgresparser.Syntax.{child}
use postgresparser.Syntax.Rules.{
  opt_sort_clause, from_clause, where_clause, having_clause, group_clause,
}
use postgresparser.Select.Meaning.{
  Context, Meaning, SetOps, Resolved, resolve_from_parens, resolve_select,
}
use postgresparser.Select.Meaning.Sound.{
  Sound, SoundResolved, Growing, resolve_from_parens-Sound, resolve_select-Sound,
}
use postgresparser.Select.From.{extract_from_clause}
use postgresparser.Select.From.Laws.{extract_from_clause-Grown}
use postgresparser.Select.Projection.{extract_projection}
use postgresparser.Select.Projection.Laws.{extract_projection-Grown}
use postgresparser.Select.Clauses.{extract_where, extract_having, extract_group, extract_order}
use postgresparser.Select.Clauses.Laws.{
  extract_where-Grown, extract_having-Grown, extract_group-Grown, extract_order-Grown,
  extract_limit-Grown,
}
use postgresparser.Select.Branches.Laws.{GrownOption, set_operations-Grown}
use postgresparser.Select.Cte.{extract_ctes, add_with, cte_name_set}
use postgresparser.Select.Populate.{
  add_set_operations, populate_clauses, populate_operations, populate_named, populate_resolved,
  populate_select, project_within, parens_meaning,
}

module _ ⦃u : Unicode⦄ where
  add_set_operations-Grown :
      (r : Option QueryFields) (found : SetOps) (q : ParsedQuery)
      → GrownOption (some (fields q)) r
      → Grown q (add_set_operations r found q)
  unfolding add_set_operations GrownOption
  add_set_operations-Grown none found q h = Grown-refl q
  add_set_operations-Grown (some k) found q h =
      Grown-trans q (set_fields (append_set_op_tables _ found.ops found.leading) q) _
        (set_fields-Grown _ q (
          fields_trans _ k _ h (
            fields_trans k _ _ (unchanged-Grown k _ refl refl refl refl)
              (append_set_op_tables-Grown _ found.ops found.leading))))
        (add_subqueries-Grown found.subqueries _)

module _ ⦃u : Unicode⦄ (tokens : TokenStream) where
  populate_operations-Grown :
      (names : List Text) (snp : Context) (q : ParsedQuery)
      → Grown q (populate_operations tokens names snp q)
  unfolding populate_operations
  populate_operations-Grown names snp q =
      add_set_operations-Grown _ _ q (set_operations-Grown tokens names snp (some (fields q)))

  populate_clauses-Grown :
      (b : Bool) (names : List Text) (r : Resolved Meaning) (q : ParsedQuery)
      → Sound r.simple
      → Grown q (populate_clauses tokens b names r q)
  unfolding populate_clauses
  populate_clauses-Grown b names r q h =
      Grown-trans q (extract_projection tokens r.simple q) _
        (extract_projection-Grown tokens r.simple q h)
        (Grown-trans _ (extract_from_clause tokens names (child from_clause r.simple) _) _
          (extract_from_clause-Grown tokens names (child from_clause r.simple) _)
          (Grown-trans _ (extract_where tokens (child where_clause r.simple) _) _
            (extract_where-Grown tokens (child where_clause r.simple) _)
            (Grown-trans _ (extract_having tokens (child having_clause r.simple) _) _
              (extract_having-Grown tokens (child having_clause r.simple) _)
              (on_fields-Grown _ _ (λ k.
                fields_trans k (extract_group tokens (child group_clause r.simple) k) _
                  (extract_group-Grown tokens (child group_clause r.simple) k)
                  (fields_trans _ (extract_order tokens (child opt_sort_clause r.select_ctx) _) _
                    (extract_order-Grown tokens (child opt_sort_clause r.select_ctx) _)
                    (extract_limit-Grown tokens b r.select_ctx _)))))))

  pub add_with-Grown :
      (with_ctx : Option Context) (q : ParsedQuery) → Grown q (add_with tokens with_ctx q)
  unfolding add_with
  add_with-Grown none q = Grown-refl q
  add_with-Grown (some with_ctx) q =
      Grown-trans q (add_ctes (extract_ctes tokens with_ctx).ctes q) _ (add_ctes-Grown _ q)
        (add_tables-Grown _ _)

  populate_resolved-Grown :
      (b : Bool) (r : Resolved Meaning) (q : ParsedQuery)
      → Sound r.simple
      → Grown q (populate_resolved tokens b r q)
  unfolding populate_resolved populate_named
  populate_resolved-Grown b r q h =
      Grown-trans q (add_with tokens r.with_ctx q) _ (add_with-Grown r.with_ctx q) (
        Grown-trans _
          (populate_clauses tokens b (cte_name_set (ctes_of (add_with tokens r.with_ctx q))) r _) _
          (populate_clauses-Grown b _ r _ h) (populate_operations-Grown _ r.select_ctx _))

  resolved_select-Grown :
      (q : ParsedQuery) (r : Result (Resolved Meaning))
      → SoundResolved r
      → GrownResult q (r >>= λ s. ok (populate_resolved tokens false s q))
  unfolding GrownResult SoundResolved
  resolved_select-Grown q (ok r) h = populate_resolved-Grown false r q (h.0)
  resolved_select-Grown q (err e) h = tt

  pub populate_select-Grown :
      (q : ParsedQuery) (ctx : Context) → Sound ctx → GrownResult q (populate_select tokens q ctx)
  unfolding populate_select
  populate_select-Grown q ctx h =
      resolved_select-Grown q (resolve_select ctx) (resolve_select-Sound ctx h)

  project_within-Grown :
      (r : Result (Resolved Meaning)) (q : ParsedQuery)
      → SoundResolved r
      → Grown q (project_within tokens r q)
  unfolding project_within SoundResolved
  project_within-Grown (err e) q h = Grown-refl q
  project_within-Grown (ok r) q h = extract_projection-Grown tokens r.simple q (h.0)

  pub parens_meaning-Growing : (swp : Context) → Sound swp → Growing (parens_meaning tokens swp)
  unfolding parens_meaning Growing
  parens_meaning-Growing swp h q =
      project_within-Grown (resolve_from_parens swp) q (resolve_from_parens-Sound swp h)
