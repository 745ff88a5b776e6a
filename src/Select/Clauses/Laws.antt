-- ===== src/Select/Clauses/Laws.antt =====
-- The clauses add usages behind those that are there.
use postgresparser.Prelude.{
  refl, Bool, ◌&&◌, Bool-cases, inl, inr, Option, none, some, List, [], ◌∷◌, Text, is_empty,
}
use postgresparser.Strings.{Unicode}
use postgresparser.Ir.{filter, group_by, order_by, OrderExpression, QueryFields, ParsedQuery}
use postgresparser.Tree.{TokenStream}
use postgresparser.Query.{on_fields}
use postgresparser.Query.Grown.{
  Grown, GrownFields, fields_refl, fields_trans, Grown-refl, Grown-trans, unchanged-Grown,
  on_fields-Grown,
}
use postgresparser.Syntax.{child, children, trimmed_text, ◌&>◌}
use postgresparser.Syntax.Rules.{
  group_by_list, group_by_item, sort_clause, sortby_list, sortby, a_expr,
}
use postgresparser.Usage.Record.{find_in_optional}
use postgresparser.Usage.Record.Laws.{find_and_record_usage-Grown, find_in_optional-Grown}
use postgresparser.Usage.Comparison.Grown.{find_and_record_comparisons-Grown}
use postgresparser.Select.Meaning.{Context, expression_subqueries}
use postgresparser.Select.Meaning.Sound.{expression_subqueries-Grown}
use postgresparser.Select.Clauses.{
  add_where, add_having, filter_by, extract_where, extract_having, group_items, group_listed,
  extract_group, order_of, add_order, order_items, order_listed, extract_order, set_limit,
  extract_limit,
}

module _ ⦃u : Unicode⦄ (tokens : TokenStream) where
  filter_by-Grown :
      (add : Text → QueryFields → QueryFields) (expr : Option Context) (q : ParsedQuery)
      → ((text : Text) (k : QueryFields) → GrownFields k (add text k))
      → Grown q (filter_by tokens add expr q)
  unfolding filter_by
  filter_by-Grown add none q h = Grown-refl q
  filter_by-Grown add (some expr) q h =
      Grown-trans q (on_fields (add (trimmed_text tokens expr)) q) _ (on_fields-Grown _ q (h _)) (
        Grown-trans _ (expression_subqueries expr _) _ (expression_subqueries-Grown expr _)
          (on_fields-Grown _ _ (find_and_record_comparisons-Grown tokens expr filter)))

  add_where-Grown : (text : Text) (k : QueryFields) → GrownFields k (add_where text k)
  unfolding add_where
  add_where-Grown text k = unchanged-Grown k _ refl refl refl refl

  add_having-Grown : (text : Text) (k : QueryFields) → GrownFields k (add_having text k)
  unfolding add_having
  add_having-Grown text k = unchanged-Grown k _ refl refl refl refl

  pub extract_where-Grown :
      (clause : Option Context) (q : ParsedQuery) → Grown q (extract_where tokens clause q)
  unfolding extract_where
  extract_where-Grown clause q =
      filter_by-Grown add_where (clause &> child a_expr) q add_where-Grown

  pub extract_having-Grown :
      (clause : Option Context) (q : ParsedQuery) → Grown q (extract_having tokens clause q)
  unfolding extract_having
  extract_having-Grown clause q =
      filter_by-Grown add_having (clause &> child a_expr) q add_having-Grown

  group_items-Grown :
      (items : List Context) (k : QueryFields) → GrownFields k (group_items tokens items k)
  unfolding group_items
  group_items-Grown [] k = fields_refl k
  group_items-Grown (item ∷ items) k =
      fields_trans k _ _ (unchanged-Grown k _ refl refl refl refl) (
        fields_trans _ _ _ (find_and_record_usage-Grown item group_by _)
          (group_items-Grown items _))

  group_listed-Grown :
      (list : Option Context) (k : QueryFields) → GrownFields k (group_listed tokens list k)
  unfolding group_listed
  group_listed-Grown none k = fields_refl k
  group_listed-Grown (some list) k = group_items-Grown (children group_by_item list) k

  pub extract_group-Grown :
      (clause : Option Context) (k : QueryFields) → GrownFields k (extract_group tokens clause k)
  unfolding extract_group
  extract_group-Grown clause k = group_listed-Grown (clause &> child group_by_list) k

  add_order-Grown : (o : OrderExpression) (k : QueryFields) → GrownFields k (add_order tokens o k)
  unfolding add_order
  add_order-Grown o k = unchanged-Grown k _ refl refl refl refl

  order_items-Grown :
      (items : List Context) (k : QueryFields) → GrownFields k (order_items tokens items k)
  unfolding order_items
  order_items-Grown [] k = fields_refl k
  order_items-Grown (item ∷ items) k =
      fields_trans k (find_in_optional (child a_expr item) order_by k) _
        (find_in_optional-Grown (child a_expr item) order_by k)
        (fields_trans _ (add_order tokens (order_of tokens item) _) _ (add_order-Grown _ _)
          (order_items-Grown items _))

  order_listed-Grown :
      (list : Option Context) (k : QueryFields) → GrownFields k (order_listed tokens list k)
  unfolding order_listed
  order_listed-Grown none k = fields_refl k
  order_listed-Grown (some list) k = order_items-Grown (children sortby list) k

  pub extract_order-Grown :
      (wrap : Option Context) (k : QueryFields) → GrownFields k (extract_order tokens wrap k)
  unfolding extract_order
  extract_order-Grown wrap k = order_listed-Grown (wrap &> child sort_clause &> child sortby_list) k

  set_limit-Grown :
      (b : Bool) (texts : Text × Text) (k : QueryFields)
      → GrownFields k (set_limit tokens b texts k)
  unfolding set_limit
  set_limit-Grown b texts k = elim (Bool-cases (is_empty (texts.0) && is_empty (texts.1))) [
    | inl h ↦ rw h (fields_refl k)
    | inr h ↦ rw h (unchanged-Grown k _ refl refl refl refl)
  ]

  pub extract_limit-Grown :
      (b : Bool) (snp : Context) (k : QueryFields) → GrownFields k (extract_limit tokens b snp k)
  unfolding extract_limit
  extract_limit-Grown b snp k = set_limit-Grown b _ k
