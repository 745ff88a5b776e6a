-- ===== src/Select/Clauses.antt =====
-- The clauses of a SELECT behind FROM: `extractWhereClause`, `extractHavingClause`,
-- `extractGroupClause`, `extractOrderClause` and `extractLimitClause` of select.go.
pub mod Laws
use postgresparser.Prelude.{
  Bool, true, false, ◌&&◌, Option, none, some, List, [], ◌∷◌, ◌++◌, Text, is_empty, if◌then◌else◌,
}
use postgresparser.Strings.{Unicode, to_upper}
use postgresparser.Ir.{
  filter, group_by, order_by, OrderExpression, LimitClause, QueryFields, ParsedQuery,
}
use postgresparser.Tree.{TokenStream}
use postgresparser.Query.{on_fields}
use postgresparser.Syntax.{Tree, child, children, trimmed_text, optional_text, ◌&>◌}
use postgresparser.Syntax.Rules.{
  group_by_list, group_by_item, sort_clause, sortby_list, sortby, opt_asc_desc, opt_nulls_order,
  qual_all_op, select_limit, opt_select_limit, limit_clause, offset_clause, a_expr,
}
use postgresparser.Usage.Record.{find_and_record_usage, find_in_optional}
use postgresparser.Usage.Comparison.{find_and_record_comparisons}
use postgresparser.Select.Meaning.{Context, expression_subqueries}

unfoldable pub add_where : Text → QueryFields → QueryFields
add_where text q = record q { wheres = q.wheres ++ text ∷ [] }

unfoldable pub add_having : Text → QueryFields → QueryFields
add_having text q = record q { havings = q.havings ++ text ∷ [] }

module _ ⦃u : Unicode⦄ (tokens : TokenStream) where
  filter_by : (Text → QueryFields → QueryFields) → Option Context → ParsedQuery → ParsedQuery
  unfolding expression_subqueries find_and_record_comparisons
  filter_by add none result = result
  filter_by add (some expr) result =
      on_fields (find_and_record_comparisons tokens expr filter)
        (expression_subqueries expr (on_fields (add (trimmed_text tokens expr)) result))

  -- `extractWhereClause`
  unfoldable pub extract_where : Option Context → ParsedQuery → ParsedQuery
  unfolding filter_by add_where
  extract_where clause result = filter_by add_where (clause &> child a_expr) result

  -- `extractHavingClause`
  unfoldable pub extract_having : Option Context → ParsedQuery → ParsedQuery
  unfolding filter_by add_having
  extract_having clause result = filter_by add_having (clause &> child a_expr) result

  group_items : List Context → QueryFields → QueryFields
  unfolding find_and_record_usage
  group_items [] q = q
  group_items (item ∷ items) q = group_items items (
      find_and_record_usage item group_by
        (record q { group_by = q.group_by ++ trimmed_text tokens item ∷ [] }))

  group_listed : Option Context → QueryFields → QueryFields
  unfolding group_items
  group_listed none q = q
  group_listed (some list) q = group_items (children group_by_item list) q

  -- `extractGroupClause`
  unfoldable pub extract_group : Option Context → QueryFields → QueryFields
  unfolding group_listed
  extract_group clause q = group_listed (clause &> child group_by_list) q

  order_of : Context → OrderExpression
  unfolding optional_text
  order_of item =
      let expr = optional_text tokens (child a_expr item) in
      record {
        expression = if is_empty expr then optional_text tokens (child qual_all_op item) else expr;
        direction = to_upper (optional_text tokens (child opt_asc_desc item));
        nulls = to_upper (optional_text tokens (child opt_nulls_order item));
      }

  add_order : OrderExpression → QueryFields → QueryFields
  add_order o q = record q { order_by = q.order_by ++ o ∷ [] }

  order_items : List Context → QueryFields → QueryFields
  unfolding order_of add_order find_in_optional
  order_items [] q = q
  order_items (item ∷ items) q =
      order_items items
        (add_order (order_of item) (find_in_optional (child a_expr item) order_by q))

  order_listed : Option Context → QueryFields → QueryFields
  unfolding order_items
  order_listed none q = q
  order_listed (some list) q = order_items (children sortby list) q

  -- `extractOrderClause`
  unfoldable pub extract_order : Option Context → QueryFields → QueryFields
  unfolding order_listed
  extract_order wrap q = order_listed (wrap &> child sort_clause &> child sortby_list) q

  -- The texts of LIMIT and OFFSET; the optional rule comes in where both are empty.
  limit_texts : Text → Text → Option Context → Text × Text
  unfolding optional_text
  limit_texts limit offset none = (limit, offset)
  limit_texts limit offset (some ctx) =
      if is_empty limit && is_empty offset
      then (trimmed_text tokens ctx, offset)
      else (limit, offset)

  set_limit : Bool → Text × Text → QueryFields → QueryFields
  set_limit is_nested texts q = if is_empty (texts.0) && is_empty (texts.1) then q else record q {
    limit = some (record { limit = texts.0; offset = texts.1; is_nested = is_nested });
  }

  -- `extractLimitClause`
  unfoldable pub extract_limit : Bool → Context → QueryFields → QueryFields
  unfolding limit_texts set_limit
  extract_limit is_nested snp q =
      let ctx = child select_limit snp in
      set_limit is_nested
        (limit_texts (optional_text tokens (ctx &> child limit_clause))
          (optional_text tokens (ctx &> child offset_clause)) (child opt_select_limit snp))
        q
