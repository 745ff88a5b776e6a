-- ===== src/Usage/Record.antt =====
-- `findAndRecordUsage`, `extractFunctionsFromContext` and `extractWindowFunctions` of helpers.go.
pub mod Laws
use postgresparser.Prelude.{
  Bool, true, false, not, ◌&&◌, Option, none, some, List, [], ◌∷◌, ◌++◌, Text, codes, is_empty,
  keep, if◌then◌else◌,
}
use postgresparser.Strings.{Unicode}
use postgresparser.Strings.Search.{contains_text}
use postgresparser.Names.{ColumnRef}
use postgresparser.Ir.{
  ColumnUsageType, filter, join, window_partition, window_order, ColumnUsage, QueryFields,
}
use postgresparser.Syntax.{Tree, child, get_text}
use postgresparser.Syntax.Rules.{window_specification, opt_partition_clause, opt_sort_clause}
use postgresparser.Usage.Collectors.{column_refs, over_clauses, function_calls, parse_col_ref}
use postgresparser.Usage.Operator.{operator_of_text}

-- The roles with an operator.
abbrev takes_operator : ColumnUsageType → Bool
takes_operator filter = true
takes_operator join = true
takes_operator _ = false

unfoldable pub add_usages : List ColumnUsage → QueryFields → QueryFields
add_usages usages result = record result { column_usage = result.column_usage ++ usages }

module _ ⦃u : Unicode⦄ {A : Type 0} where
  -- `extractFunctionsFromContext`
  unfoldable pub functions_around : Tree A → Tree A → List Text
  functions_around ctx col =
      keep
        (λ f.
          contains_text (f ++ codes "(") (get_text ctx)
          && contains_text (get_text col) (get_text ctx))
        (function_calls ctx)

  unfoldable pub usage_of : Tree A → ColumnUsageType → Text → Tree A → ColumnUsage
  usage_of ctx role op col =
      let ref = parse_col_ref col in
      record {
        table_alias = ref.table_alias;
        column = ref.name;
        expression = get_text col;
        usage_type = role;
        context = get_text ctx;
        operator = op;
        side = [];
        functions = functions_around ctx col;
      }

  -- The loop; the operator goes to the first reference.
  unfoldable pub usages_of : Tree A → ColumnUsageType → Text → List (Tree A) → List ColumnUsage
  unfolding usage_of
  usages_of ctx role op [] = []
  usages_of ctx role op (col ∷ cols) = usage_of ctx role op col ∷ usages_of ctx role [] cols

  shared_operator : ColumnUsageType → Tree A → Text
  shared_operator role ctx = if takes_operator role then operator_of_text (get_text ctx) else []

  -- `findAndRecordUsage` on a context that is not nil
  unfoldable pub find_and_record_usage : Tree A → ColumnUsageType → QueryFields → QueryFields
  unfolding usages_of shared_operator add_usages
  find_and_record_usage ctx role result =
      add_usages (usages_of ctx role (shared_operator role ctx) (column_refs ctx)) result

  -- the same on one that may be nil
  unfoldable pub find_in_optional : Option (Tree A) → ColumnUsageType → QueryFields → QueryFields
  unfolding find_and_record_usage
  find_in_optional none role result = result
  find_in_optional (some ctx) role result = find_and_record_usage ctx role result

  window_usage : Option (Tree A) → QueryFields → QueryFields
  unfolding find_in_optional
  window_usage none result = result
  window_usage (some spec) result =
      find_in_optional (child opt_sort_clause spec) window_order
        (find_in_optional (child opt_partition_clause spec) window_partition result)

  window_loop : List (Tree A) → QueryFields → QueryFields
  unfolding window_usage
  window_loop [] result = result
  window_loop (over ∷ overs) result =
      window_loop overs (window_usage (child window_specification over) result)

  -- `extractWindowFunctions`
  unfoldable pub extract_window_functions : Tree A → QueryFields → QueryFields
  unfolding window_loop
  extract_window_functions ctx result = window_loop (over_clauses ctx) result
