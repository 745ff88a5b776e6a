-- ===== src/Select/Branches.antt =====
-- setops.go: the branches of a set operation. A loop of the code that jumps behind an operand goes
-- on behind the operator here, since it does nothing at a modifier or at an operand.
pub mod Laws
use postgresparser.Prelude.{
  Bool, true, false, ◌&&◌, ◌||◌, Option, none, some, List, [], ◌∷◌, ◌++◌, map, Text, codes, text_eq,
  if◌then◌else◌,
}
use postgresparser.Strings.{Unicode, to_upper, trim_space}
use postgresparser.Errors.{Result, ok, err}
use postgresparser.Ir.{
  TableRef, SelectColumn, SetOperation, filter, unknown, QueryFields, ParsedQuery, Subqueries,
  no_subqueries,
}
use postgresparser.Tree.{TokenStream}
use postgresparser.Query.{fields, subqueries, append_subqueries, add_subquery, add_tables}
use postgresparser.Entry.Statement.{new_parsed_query}
use postgresparser.Syntax.{
  Tree, terminal, rule, child, nth_child, get_children, is_rule, has_token, trimmed_text,
  optional_text, ◌&>◌,
}
use postgresparser.Syntax.Rules.{
  Rule, select_clause, simple_select_intersect, simple_select_primary, all_or_distinct, from_clause,
  where_clause, relation_expr, select_with_parens, a_expr, table,
}
use postgresparser.Usage.Comparison.{find_and_record_comparisons}
use postgresparser.Select.Meaning.{Context, SetOps, no_set_ops, value_of}
use postgresparser.Select.From.{relation_ref, extract_from_clause}
use postgresparser.Select.Projection.{extract_projection}

unfoldable pub append_found : SetOps → SetOps → SetOps
unfolding append_subqueries
append_found a b = record {
  ops = a.ops ++ b.ops;
  leading = a.leading ++ b.leading;
  subqueries = append_subqueries a.subqueries b.subqueries;
}

-- What is found, and the query that the filters of the branches go to, where there is one.
pub record Scan : Type 0 where
  pub found : SetOps
  pub result : Option QueryFields

-- `collectNestedSetOperationsFromPrimary`
unfoldable pub nested_operations : List Text → Option Context → SetOps
unfolding value_of no_set_ops
nested_operations names none = no_set_ops
nested_operations names (some swp) = (value_of swp).set_ops names

module _ ⦃u : Unicode⦄ where
  unfoldable pub is_operator : Text → Context → Bool
  is_operator w (terminal t s) = text_eq (to_upper (trim_space s)) w
  is_operator w (rule r i j a cs) = false

  has_operator : Text → List Context → Bool
  unfolding is_operator
  has_operator w [] = false
  has_operator w (c ∷ cs) = is_operator w c || has_operator w cs

  has_optional : Text → Option Context → Bool
  unfolding has_operator
  has_optional w none = false
  has_optional w (some ctx) = has_operator w (get_children ctx)

  -- `hasSetOps`
  unfoldable pub has_set_ops : Context → Bool
  unfolding has_optional
  has_set_ops clause =
      has_operator (codes "UNION") (get_children clause)
      || has_operator (codes "EXCEPT") (get_children clause)
      || has_optional (codes "INTERSECT") (nth_child simple_select_intersect 0 clause)

module _ ⦃u : Unicode⦄ (tokens : TokenStream) where
  first_operand : Rule → Text → List Context → Option (Text × Context)
  first_operand r op [] = none
  first_operand r op (c ∷ cs) = if is_rule r c then some (op, c) else none

  with_modifier : Text → Context → Text
  with_modifier op modifier =
      if text_eq (to_upper (trimmed_text tokens modifier)) (codes "ALL")
      then op ++ codes " ALL"
      else op

  -- The type of the operation and its operand, behind ALL or DISTINCT or not.
  unfoldable pub operand : Rule → Text → List Context → Option (Text × Context)
  unfolding first_operand with_modifier
  operand r op [] = none
  operand r op (c ∷ cs) =
      if is_rule all_or_distinct c
      then first_operand r (with_modifier op c) cs
      else first_operand r op (c ∷ cs)

  -- `extractColumnsForPrimary`
  unfoldable pub columns_for_primary : Context → List Text
  unfolding new_parsed_query extract_projection
  columns_for_primary primary =
      map SelectColumn.expression
        (fields (extract_projection tokens primary (new_parsed_query unknown []))).columns

  record_where : Option Context → QueryFields → QueryFields
  unfolding find_and_record_comparisons
  record_where none q = q
  record_where (some expr) q = find_and_record_comparisons tokens expr filter q

  -- The filters of a branch; they go nowhere where there is no query.
  branch_filters : Context → Option QueryFields → Option QueryFields
  unfolding record_where
  branch_filters primary none = none
  branch_filters primary (some q) =
      some (record_where (child where_clause primary &> child a_expr) q)

  table_command : List Text → Context → Option Context → ParsedQuery → ParsedQuery
  unfolding relation_ref add_tables
  table_command names primary none tmp = tmp
  table_command names primary (some rel) tmp =
      let name = trimmed_text tokens rel in
      if has_token table primary
      then add_tables (relation_ref tokens names name [] name ∷ []) tmp
      else tmp

  add_branch : Result ParsedQuery → ParsedQuery → ParsedQuery
  unfolding add_subquery add_tables
  add_branch (err e) tmp = tmp
  add_branch (ok query) tmp = add_tables (fields query).tables (add_subquery [] query tmp)

  parens_branch : Option Context → ParsedQuery → ParsedQuery
  unfolding add_branch value_of
  parens_branch none tmp = tmp
  parens_branch (some swp) tmp = add_branch (value_of swp).query tmp

  -- `tmp` of `extractTablesAndUsageForPrimary`, without the filters
  unfoldable pub primary_tables : List Text → Context → ParsedQuery
  unfolding table_command parens_branch extract_from_clause new_parsed_query
  primary_tables names primary = parens_branch (child select_with_parens primary) (
      table_command names primary (child relation_expr primary) (
        extract_from_clause tokens names (child from_clause primary) (new_parsed_query unknown [])))

  -- `buildSetOperationFromPrimary`
  unfoldable pub primary_operation : List Text → Text → Context → SetOps
  unfolding primary_tables columns_for_primary
  primary_operation names op primary =
      let tmp = primary_tables names primary in
      record {
        ops =
            record {
              op_type = trim_space op;
              query = trimmed_text tokens primary;
              columns = columns_for_primary primary;
              tables = (fields tmp).tables;
            }
            ∷ [];
        leading = [];
        subqueries = subqueries tmp;
      }

  intersect_operand : List Text → Option (Text × Context) → SetOps → SetOps
  unfolding append_found primary_operation nested_operations
  intersect_operand names none found = found
  intersect_operand names (some branch) found =
      append_found (append_found found (primary_operation names (branch.0) (branch.1)))
        (nested_operations names (child select_with_parens (branch.1)))

  intersect_loop : List Text → List Context → SetOps → SetOps
  unfolding intersect_operand operand is_operator
  intersect_loop names [] found = found
  intersect_loop names (c ∷ cs) found = intersect_loop names cs (
      if is_operator (codes "INTERSECT") c
      then intersect_operand names (operand simple_select_primary (codes "INTERSECT") cs) found
      else found)

  -- `collectIntersectOperationsWithResult`
  unfoldable pub intersect_operations : List Text → Context → SetOps
  unfolding intersect_loop nested_operations
  intersect_operations names ctx =
      intersect_loop names (get_children ctx) (
        nested_operations names (nth_child simple_select_primary 0 ctx &> child select_with_parens))

  operation_of : Text → Context → List Text → List TableRef → SetOperation
  operation_of op rhs columns tables = record {
    op_type = trim_space op;
    query = trimmed_text tokens rhs;
    columns = columns;
    tables = tables;
  }

  primary_branch : List Text → Text → Context → Option Context → Scan → Scan
  unfolding append_found primary_tables columns_for_primary branch_filters operation_of
  primary_branch names op rhs none st = record st {
    found =
        append_found st.found (record {
          ops = operation_of op rhs [] [] ∷ [];
          leading = [];
          subqueries = no_subqueries;
        });
  }
  primary_branch names op rhs (some primary) st =
      let tmp = primary_tables names primary in
      record {
        found = append_found st.found (record {
          ops = operation_of op rhs (columns_for_primary primary) (fields tmp).tables ∷ [];
          leading = [];
          subqueries = subqueries tmp;
        });
        result = branch_filters primary st.result;
      }

  -- `buildSetOperationFromIntersect`, which adds what it finds
  unfoldable pub intersect_branch : List Text → Text → Context → Scan → Scan
  unfolding primary_branch
  intersect_branch names op rhs st =
      primary_branch names op rhs (nth_child simple_select_primary 0 rhs) st

  add_intersects : List Text → Context → Scan → Scan
  unfolding append_found intersect_operations
  add_intersects names ctx st = record st {
    found = append_found st.found (intersect_operations names ctx);
  }

  union_operand : List Text → Option (Text × Context) → Scan → Scan
  unfolding add_intersects intersect_branch
  union_operand names none st = st
  union_operand names (some branch) st =
      add_intersects names (branch.1) (intersect_branch names (branch.0) (branch.1) st)

  -- One child of the clause, with the children behind it.
  unfoldable pub union_step : List Text → Context → List Context → Scan → Scan
  unfolding union_operand operand is_operator
  union_step names c cs st =
      if is_operator (codes "UNION") c
      then union_operand names (operand simple_select_intersect (codes "UNION") cs) st
      else if is_operator (codes "EXCEPT") c
      then union_operand names (operand simple_select_intersect (codes "EXCEPT") cs) st
      else st

  unfoldable pub union_loop : List Text → List Context → Scan → Scan
  unfolding union_step
  union_loop names [] st = st
  union_loop names (c ∷ cs) st = union_loop names cs (union_step names c cs st)

  leading_primary : List Text → Option Context → Scan → Scan
  unfolding append_found primary_tables branch_filters
  leading_primary names none st = st
  leading_primary names (some primary) st =
      let tmp = primary_tables names primary in
      record {
        found =
            append_found st.found
              (record { ops = []; leading = (fields tmp).tables; subqueries = subqueries tmp });
        result = branch_filters primary st.result;
      }

  -- The first operand; its primary only where there is a set operation.
  leading_operand : List Text → Context → Option Context → Scan → Scan
  unfolding add_intersects leading_primary has_set_ops
  leading_operand names clause none st = st
  leading_operand names clause (some first) st = add_intersects names first (
      if has_set_ops clause
      then leading_primary names (nth_child simple_select_primary 0 first) st
      else st)

  clause_operations : List Text → Option Context → Scan → Scan
  unfolding union_loop leading_operand
  clause_operations names none st = st
  clause_operations names (some clause) st =
      union_loop names (get_children clause)
        (leading_operand names clause (nth_child simple_select_intersect 0 clause) st)

  -- `extractSetOperationsWithResult` on a context that is not nil
  unfoldable pub set_operations : List Text → Context → Option QueryFields → Scan
  unfolding clause_operations no_set_ops
  set_operations names snp result =
      clause_operations names (child select_clause snp)
        (record { found = no_set_ops; result = result })
