-- ===== src/Tests/Analysis.antt =====
-- Commas in parentheses, the tables of a query and its usages.
use postgresparser.Prelude.{◌≡◌, [], ◌∷◌, map, Text, codes, All, Fresh}
use postgresparser.Strings.{join}
use postgresparser.Ir.{base_table, ColumnUsageType, filter, projection, ColumnUsage, QueryFields}
use postgresparser.Analysis.Returning.{split_commas}
use postgresparser.Analysis.Returning.Laws.{join-split_commas}
use postgresparser.Analysis.Helpers.{base_key, base_tables, stat, usage_stats_by_table}
use postgresparser.Analysis.Helpers.Laws.{
  IsBase, times_in, base_tables-Fresh, usage_stats_by_table-times,
}
use postgresparser.Tests.Setup.{ascii, empty_query}

abbrev two_tables : QueryFields
two_tables = record empty_query {
  tables =
      base_table [] (codes "users") (codes "users")
      ∷ base_table (codes "public") (codes "Users") (codes "public.Users")
      ∷ [];
}

join-split_commas_example :
    join (b',' ∷ []) (split_commas (codes "f(a, b), c")) ≡ codes "f(a, b), c"
join-split_commas_example = join-split_commas (codes "f(a, b), c")

base_tables-Fresh_example :
    Fresh [] (map base_key (base_tables two_tables)) × All IsBase (base_tables two_tables)
base_tables-Fresh_example = base_tables-Fresh two_tables

abbrev usage_of : Text → ColumnUsageType → ColumnUsage
usage_of alias role = record {
  table_alias = alias;
  column = codes "id";
  expression = [];
  usage_type = role;
  context = [];
  operator = [];
  side = [];
  functions = [];
}

abbrev three_usages : QueryFields
three_usages = record empty_query {
  column_usage =
      usage_of (codes " U") filter
      ∷ usage_of (codes "u") projection
      ∷ usage_of (codes "u") filter
      ∷ [];
}

usage_stats_by_table-times_example :
    stat (codes "u") (usage_stats_by_table (filter ∷ []) three_usages)
    ≡ times_in (codes "u") (filter ∷ []) three_usages.column_usage
usage_stats_by_table-times_example =
    usage_stats_by_table-times (codes "u") (filter ∷ []) three_usages
