-- ===== src/Dml/Merge/Laws.antt =====
-- MERGE adds to the query that it is given.
use postgresparser.Prelude.{
  refl, Bool-cases, inl, inr, Option, none, some, List, [], ◌∷◌, Text, get_elem?,
}
use postgresparser.Strings.{Unicode}
use postgresparser.Errors.{Result, ok, err}
use postgresparser.Ir.{
  TableRef, filter, join, merge_target, merge_source, merge_set, merge_insert, QueryFields,
  ParsedQuery,
}
use postgresparser.Tree.{TokenStream}
use postgresparser.Query.{fields, on_fields, set_fields, add_subquery}
use postgresparser.Query.Grown.{
  Grown, GrownFields, fields_refl, fields_trans, Grown-refl, Grown-trans, unchanged-Grown,
  on_fields-Grown, set_fields-Grown, add_subquery-Grown, set_merge-Grown,
}
use postgresparser.SetOps.Grown.{append_set_op_tables-Grown}
use postgresparser.Syntax.{Tree, child, children, get_children, is_rule}
use postgresparser.Syntax.Rules.{
  qualified_name, alias_clause, select_with_parens, a_expr, set_clause_list, merge_insert_clause,
  merge_update_clause, merge_delete_clause, values_clause,
}
use postgresparser.Usage.Record.{find_in_optional}
use postgresparser.Usage.Record.Laws.{find_and_record_usage-Grown, find_in_optional-Grown}
use postgresparser.Select.Meaning.{Context, value_of}
use postgresparser.Select.From.{alias_of}
use postgresparser.Dml.Targets.Laws.{set_usage-Grown}
use postgresparser.Dml.Merge.{
  Actions, add_insert_action, record_set, append_set, add_update_action, add_delete_action,
  add_action, add_child, add_children, Source, add_table, add_target, source_query, source_name,
  source_of, finish, with_source, named_by, populate_merge,
}

append_set-Grown : (clauses : List Text) (q : QueryFields) → GrownFields q (append_set clauses q)
unfolding append_set
append_set-Grown clauses q = unchanged-Grown q _ refl refl refl refl

module _ ⦃u : Unicode⦄ {A : Type 0} (tokens : TokenStream) where
  insert_action-Grown :
      (c : Tree A) (st : Actions) → GrownFields st.query (add_insert_action tokens c st).query
  unfolding add_insert_action add_action
  insert_action-Grown c st =
      fields_trans st.query (find_in_optional (child a_expr c) filter st.query) _
        (find_in_optional-Grown (child a_expr c) filter st.query)
        (find_in_optional-Grown (child values_clause c) merge_insert _)

  record_set-Grown :
      (list : Option (Tree A)) (q : QueryFields) → GrownFields q (record_set tokens list q)
  unfolding record_set
  record_set-Grown none q = fields_refl q
  record_set-Grown (some list) q = set_usage-Grown tokens list merge_set merge_set q

  update_action-Grown :
      (c : Tree A) (st : Actions) → GrownFields st.query (add_update_action tokens c st).query
  unfolding add_update_action add_action
  update_action-Grown c st =
      fields_trans st.query (find_in_optional (child a_expr c) filter st.query) _
        (find_in_optional-Grown (child a_expr c) filter st.query)
        (fields_trans _ (record_set tokens (child set_clause_list c) _) _
          (record_set-Grown (child set_clause_list c) _) (append_set-Grown _ _))

  delete_action-Grown :
      (c : Tree A) (st : Actions) → GrownFields st.query (add_delete_action tokens c st).query
  unfolding add_delete_action add_action
  delete_action-Grown c st = fields_refl st.query

  add_child-Grown : (c : Tree A) (st : Actions) → GrownFields st.query (add_child tokens c st).query
  unfolding add_child
  add_child-Grown c st = elim (Bool-cases (is_rule merge_insert_clause c)) [
    | inl h ↦ rw h (insert_action-Grown c st)
    | inr h ↦ elim (Bool-cases (is_rule merge_update_clause c)) [
      | inl k ↦ rw (h, k) (update_action-Grown c st)
      | inr k ↦ elim (Bool-cases (is_rule merge_delete_clause c)) [
        | inl l ↦ rw (h, k, l) (delete_action-Grown c st)
        | inr l ↦ rw (h, k, l) (fields_refl st.query)
      ]
    ]
  ]

  add_children-Grown :
      (cs : List (Tree A)) (st : Actions) → GrownFields st.query (add_children tokens cs st).query
  unfolding add_children
  add_children-Grown [] st = fields_refl st.query
  add_children-Grown (c ∷ cs) st =
      fields_trans st.query (add_child tokens c st).query _ (add_child-Grown c st)
        (add_children-Grown cs (add_child tokens c st))

module _ ⦃u : Unicode⦄ (tokens : TokenStream) where
  add_table-Grown : (t : TableRef) (q : QueryFields) → GrownFields q (add_table tokens t q)
  unfolding add_table
  add_table-Grown t q = append_set_op_tables-Grown q [] (t ∷ [])

  add_target-Grown :
      (t : TableRef) (written : Option Context) (q : QueryFields)
      → GrownFields q (add_target tokens t written q)
  unfolding add_target
  add_target-Grown t none q = fields_refl q
  add_target-Grown t (some written) q =
      fields_trans q (add_table tokens t q) _ (add_table-Grown t q)
        (find_and_record_usage-Grown written merge_target _)

  source_query-Grown :
      (alias : Text) (t : TableRef) (r : Result ParsedQuery) (q : ParsedQuery)
      → Grown q (source_query tokens alias t r q).result
  unfolding source_query
  source_query-Grown alias t (err e) q = Grown-refl q
  source_query-Grown alias t (ok query) q =
      Grown-trans q (add_subquery alias query q) _ (add_subquery-Grown alias query q)
        (on_fields-Grown _ _ (λ k. append_set_op_tables-Grown k [] (fields query).tables))

  source_name-Grown :
      (alias : Text) (written : Option Context) (q : ParsedQuery)
      → Grown q (source_name tokens alias written q).result
  unfolding source_name
  source_name-Grown alias none q = Grown-refl q
  source_name-Grown alias (some written) q = on_fields-Grown _ q (λ k.
      fields_trans k (add_table tokens _ k) _ (add_table-Grown _ k)
        (find_and_record_usage-Grown written merge_source _))

  source_of-Grown :
      (alias : Text) (written swp : Option Context) (q : ParsedQuery)
      → Grown q (source_of tokens alias written swp q).result
  unfolding source_of
  source_of-Grown alias written none q = source_name-Grown alias written q
  source_of-Grown alias written (some swp) q =
      Grown-trans q (on_fields (add_table tokens _) q) _ (on_fields-Grown _ q (add_table-Grown _))
        (source_query-Grown alias _ (value_of swp).query _)

  finish-Grown :
      (target : TableRef) (condition : Text) (source : Source) (st : Actions)
      → GrownFields (fields source.result) st.query
      → Grown source.result (finish tokens target condition source st)
  unfolding finish
  finish-Grown target condition source st h =
      Grown-trans _ (set_fields st.query source.result) _
        (set_fields-Grown st.query source.result h) (set_merge-Grown _ _)

  with_source-Grown :
      (target : TableRef) (ctx : Context) (source : Source)
      → Grown source.result (with_source tokens target ctx source)
  unfolding with_source
  with_source-Grown target ctx source = finish-Grown target _ source _ (
      fields_trans _ (find_in_optional (child a_expr ctx) join (fields source.result)) _
        (find_in_optional-Grown (child a_expr ctx) join (fields source.result))
        (add_children-Grown tokens (get_children ctx) _))

  pub populate_merge-Grown :
      (q : ParsedQuery) (ctx : Context) → Grown q (populate_merge tokens q ctx)
  unfolding populate_merge
  populate_merge-Grown q ctx =
      let t =
        named_by tokens (alias_of tokens (get_elem? (children alias_clause ctx) 0))
          (get_elem? (children qualified_name ctx) 0) in
      Grown-trans q (on_fields (add_target tokens t (get_elem? (children qualified_name ctx) 0)) q)
        _ (on_fields-Grown _ q (add_target-Grown t (get_elem? (children qualified_name ctx) 0)))
        (Grown-trans _ _ _
          (source_of-Grown (alias_of tokens (get_elem? (children alias_clause ctx) 1))
            (get_elem? (children qualified_name ctx) 1) (child select_with_parens ctx) _)
          (with_source-Grown t ctx _))
