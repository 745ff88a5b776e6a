-- ===== src/Usage/Record/Laws.antt =====
-- The usages of a context are added behind the others, and nothing else changes.
use postgresparser.Prelude.{Option, none, some, List, [], ◌∷◌}
use postgresparser.Strings.{Unicode}
use postgresparser.Ir.{ColumnUsageType, ColumnUsage, window_partition, window_order, QueryFields}
use postgresparser.Query.Grown.{GrownFields, fields_refl, fields_trans, more_usages-Grown}
use postgresparser.Syntax.{Tree, child}
use postgresparser.Syntax.Rules.{window_specification, opt_sort_clause, opt_partition_clause}
use postgresparser.Usage.Collectors.{over_clauses}
use postgresparser.Usage.Record.{
  add_usages, find_and_record_usage, find_in_optional, window_usage, window_loop,
  extract_window_functions,
}

pub add_usages-Grown : (us : List ColumnUsage) (q : QueryFields) → GrownFields q (add_usages us q)
unfolding add_usages
add_usages-Grown us q = more_usages-Grown q us

module _ ⦃u : Unicode⦄ {A : Type 0} where
  pub find_and_record_usage-Grown :
      (ctx : Tree A) (role : ColumnUsageType) (q : QueryFields)
      → GrownFields q (find_and_record_usage ctx role q)
  unfolding find_and_record_usage
  find_and_record_usage-Grown ctx role q = add_usages-Grown _ q

  pub find_in_optional-Grown :
      (ctx : Option (Tree A)) (role : ColumnUsageType) (q : QueryFields)
      → GrownFields q (find_in_optional ctx role q)
  unfolding find_in_optional
  find_in_optional-Grown none role q = fields_refl q
  find_in_optional-Grown (some ctx) role q = find_and_record_usage-Grown ctx role q

  window_usage-Grown :
      (spec : Option (Tree A)) (q : QueryFields) → GrownFields q (window_usage spec q)
  unfolding window_usage
  window_usage-Grown none q = fields_refl q
  window_usage-Grown (some spec) q =
      fields_trans q (find_in_optional (child opt_partition_clause spec) window_partition q) _
        (find_in_optional-Grown (child opt_partition_clause spec) window_partition q)
        (find_in_optional-Grown (child opt_sort_clause spec) window_order _)

  window_loop-Grown :
      (overs : List (Tree A)) (q : QueryFields) → GrownFields q (window_loop overs q)
  unfolding window_loop
  window_loop-Grown [] q = fields_refl q
  window_loop-Grown (over ∷ overs) q =
      fields_trans q (window_usage (child window_specification over) q) _
        (window_usage-Grown (child window_specification over) q) (window_loop-Grown overs _)

  pub extract_window_functions-Grown :
      (ctx : Tree A) (q : QueryFields) → GrownFields q (extract_window_functions ctx q)
  unfolding extract_window_functions
  extract_window_functions-Grown ctx q = window_loop-Grown (over_clauses ctx) q
