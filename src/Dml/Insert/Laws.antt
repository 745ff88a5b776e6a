-- ===== src/Dml/Insert/Laws.antt =====
-- INSERT adds to the query that it is given.
use postgresparser.Prelude.{refl, Bool-cases, inl, inr, Option, none, some}
use postgresparser.Strings.{Unicode}
use postgresparser.Ir.{filter, dml_set, upsert_target, upsert_set, QueryFields, ParsedQuery}
use postgresparser.Tree.{TokenStream}
use postgresparser.Query.{on_fields}
use postgresparser.Query.Grown.{
  GrownFields, GrownResult, GrownResult-step, GrownResult-then, fields_refl, fields_trans,
  Grown-refl, Grown-trans, unchanged-Grown, more_tables-Grown, on_fields-Grown,
}
use postgresparser.Syntax.{Tree, child, has_token, ◌&>◌}
use postgresparser.Syntax.Rules.{
  nothing, update, qualified_name, where_clause, selectstmt, with_clause, opt_with_clause,
  insert_target, insert_rest, opt_on_conflict, opt_conf_expr, index_params, set_clause_list,
  returning_clause,
}
use postgresparser.Usage.Record.Laws.{find_and_record_usage-Grown, find_in_optional-Grown}
use postgresparser.Select.Meaning.{Context}
use postgresparser.Select.Meaning.Sound.{Sound, SoundOption, child-Sound}
use postgresparser.Select.Cte.{add_with}
use postgresparser.Select.Populate.Laws.{add_with-Grown, populate_select-Grown}
use postgresparser.Dml.Targets.{add_returning}
use postgresparser.Dml.Targets.Laws.{set_usage-Grown, add_returning-Grown}
use postgresparser.Dml.Insert.{
  Built, conflict_params, conflict_target, action_set, action_update, conflict_action,
  build_upsert_clause, store_upsert, add_upsert, target_name, add_target, add_columns,
  insert_select, insert_body, populate_insert,
}

module _ ⦃u : Unicode⦄ {A : Type 0} (tokens : TokenStream) where
  conflict_params-Grown :
      (params : Option (Tree A)) (b : Built)
      → GrownFields b.query (conflict_params tokens params b).query
  unfolding conflict_params
  conflict_params-Grown none b = fields_refl b.query
  conflict_params-Grown (some params) b = find_and_record_usage-Grown params upsert_target b.query

  conflict_target-Grown :
      (expr : Option (Tree A)) (b : Built)
      → GrownFields b.query (conflict_target tokens expr b).query
  unfolding conflict_target
  conflict_target-Grown none b = fields_refl b.query
  conflict_target-Grown (some expr) b =
      fields_trans b.query (conflict_params tokens (child index_params expr) b).query _
        (conflict_params-Grown (child index_params expr) b)
        (find_in_optional-Grown (child where_clause expr) filter _)

  action_set-Grown :
      (list : Option (Tree A)) (b : Built) → GrownFields b.query (action_set tokens list b).query
  unfolding action_set
  action_set-Grown none b = fields_refl b.query
  action_set-Grown (some list) b = set_usage-Grown tokens list dml_set upsert_set b.query

  action_update-Grown :
      (conflict : Tree A) (b : Built) → GrownFields b.query (action_update tokens conflict b).query
  unfolding action_update
  action_update-Grown conflict b =
      fields_trans b.query (action_set tokens (child set_clause_list conflict) b).query _
        (action_set-Grown (child set_clause_list conflict) b)
        (find_in_optional-Grown (child where_clause conflict) filter _)

  conflict_action-Grown :
      (conflict : Tree A) (b : Built)
      → GrownFields b.query (conflict_action tokens conflict b).query
  unfolding conflict_action
  conflict_action-Grown conflict b = elim (Bool-cases (has_token nothing conflict)) [
    | inl h ↦ rw h (fields_refl b.query)
    | inr h ↦ elim (Bool-cases (has_token update conflict)) [
      | inl k ↦ rw (h, k) (action_update-Grown conflict b)
      | inr k ↦ rw (h, k) (fields_refl b.query)
    ]
  ]

  build_upsert-Grown :
      (conflict : Tree A) (q : QueryFields)
      → GrownFields q (build_upsert_clause tokens conflict q).query
  unfolding build_upsert_clause
  build_upsert-Grown conflict q =
      fields_trans q (conflict_target tokens (child opt_conf_expr conflict) _).query _
        (conflict_target-Grown (child opt_conf_expr conflict) _) (conflict_action-Grown conflict _)

  add_upsert-Grown :
      (conflict : Option (Tree A)) (q : QueryFields) → GrownFields q (add_upsert tokens conflict q)
  unfolding add_upsert store_upsert
  add_upsert-Grown none q = fields_refl q
  add_upsert-Grown (some conflict) q =
      fields_trans q (build_upsert_clause tokens conflict q).query _ (build_upsert-Grown conflict q)
        (unchanged-Grown _ _ refl refl refl refl)

  target_name-Grown :
      (target : Tree A) (name : Option (Tree A)) (q : QueryFields)
      → GrownFields q (target_name tokens target name q)
  unfolding target_name
  target_name-Grown target none q = fields_refl q
  target_name-Grown target (some written) q = more_tables-Grown q _

  add_target-Grown :
      (target : Option (Tree A)) (q : QueryFields) → GrownFields q (add_target tokens target q)
  unfolding add_target
  add_target-Grown none q = fields_refl q
  add_target-Grown (some target) q = target_name-Grown target (child qualified_name target) q

  columns_and_upsert-Grown :
      (rest : Tree A) (conflict : Option (Tree A)) (q : QueryFields)
      → GrownFields q (add_upsert tokens conflict (add_columns tokens rest q))
  unfolding add_columns
  columns_and_upsert-Grown rest conflict q =
      fields_trans q _ _ (unchanged-Grown q _ refl refl refl refl)
        (add_upsert-Grown conflict (add_columns tokens rest q))

module _ ⦃u : Unicode⦄ (tokens : TokenStream) where
  insert_select-Grown :
      (stmt : Option Context) (q : ParsedQuery)
      → SoundOption stmt
      → GrownResult q (insert_select tokens stmt q)
  unfolding insert_select SoundOption GrownResult
  insert_select-Grown none q h = Grown-refl q
  insert_select-Grown (some stmt) q h = populate_select-Grown tokens q stmt h

  insert_body-Grown :
      (ctx : Context) (rest : Option Context) (q : ParsedQuery)
      → SoundOption rest
      → GrownResult q (insert_body tokens ctx rest q)
  unfolding insert_body SoundOption GrownResult
  insert_body-Grown ctx none q h = Grown-refl q
  insert_body-Grown ctx (some rest) q h =
      GrownResult-step q
        (on_fields (λ k. add_upsert tokens (child opt_on_conflict ctx) (add_columns tokens rest k))
          q)
        _ (on_fields-Grown _ q (columns_and_upsert-Grown tokens rest (child opt_on_conflict ctx)))
        (insert_select-Grown (child selectstmt rest) _ (child-Sound selectstmt rest h))

  pub populate_insert-Grown :
      (q : ParsedQuery) (ctx : Context) → Sound ctx → GrownResult q (populate_insert tokens q ctx)
  unfolding populate_insert
  populate_insert-Grown q ctx h =
      GrownResult-then (on_fields (add_returning tokens (child returning_clause ctx))) q _
        (λ r. on_fields-Grown _ r (add_returning-Grown tokens (child returning_clause ctx)))
        (GrownResult-step q
          (on_fields (add_target tokens (child insert_target ctx))
            (add_with tokens (child opt_with_clause ctx &> child with_clause) q))
          _
          (Grown-trans q (add_with tokens (child opt_with_clause ctx &> child with_clause) q) _
            (add_with-Grown tokens (child opt_with_clause ctx &> child with_clause) q)
            (on_fields-Grown _ _ (add_target-Grown tokens (child insert_target ctx))))
          (insert_body-Grown ctx (child insert_rest ctx) _ (child-Sound insert_rest ctx h)))
