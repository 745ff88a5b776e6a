-- ===== src/Tests/Select.antt =====
-- A select with a join, a subquery and CTEs.
use postgresparser.Prelude.{◌≡◌, ◌↔◌, refl, true, none, some, [], codes, length}
use postgresparser.Entry.Statement.{new_parsed_query}
use postgresparser.Ir.{select}
use postgresparser.Query.Grown.{Grown}
use postgresparser.Syntax.{children, child, nth_child}
use postgresparser.Syntax.Rules.{table_ref, common_table_expr}
use postgresparser.Select.Meaning.{no_meaning}
use postgresparser.Select.Lateral.{contains_word_dot}
use postgresparser.Select.Lateral.Laws.{StandsIn, contains_word_dot_iff}
use postgresparser.Select.JoinMeta.{join_metas}
use postgresparser.Select.JoinMeta.Laws.{length-join_metas}
use postgresparser.Select.From.{collect_table_refs}
use postgresparser.Select.From.Laws.{collect_table_refs-Grown}
use postgresparser.Select.Branches.{set_operations, has_set_ops}
use postgresparser.Select.Branches.Laws.{set_operations_without}
use postgresparser.Select.Cte.{cte_count, extract_ctes}
use postgresparser.Select.Cte.Laws.{AllNamed, extract_ctes-AllNamed}
use postgresparser.Tests.Setup.{ascii, empty_query}
use postgresparser.Tests.Trees.{
  words, joined_tables, plain_select, select_of_join, two_ctes, with_two,
}

length-join_metas_example :
    length (join_metas words (joined_tables tt)) ≡ length (children table_ref (joined_tables tt))
length-join_metas_example = length-join_metas words (joined_tables tt)

collect_table_refs-Grown_example : Grown (new_parsed_query select (codes "SELECT id")) (
    collect_table_refs words []
      (joined_tables no_meaning)
      (new_parsed_query select (codes "SELECT id")))
collect_table_refs-Grown_example =
    collect_table_refs-Grown words [] (joined_tables no_meaning)
      (new_parsed_query select (codes "SELECT id"))

contains_word_dot_iff_example :
    (contains_word_dot (codes "f(u.id)") (codes "u") ≡ true)
    ↔ StandsIn (codes "u.") none (codes "f(u.id)")
contains_word_dot_iff_example = contains_word_dot_iff (codes "f(u.id)") (codes "u") refl

set_operations_without_example :
    (set_operations words [] (plain_select no_meaning) (some empty_query)).result ≡ some empty_query
set_operations_without_example =
    set_operations_without words [] (plain_select no_meaning) (select_of_join no_meaning)
      (some empty_query) (unfold child in refl) (unfold has_set_ops in unfold nth_child in refl)

extract_ctes-AllNamed_example :
    (cte_count (extract_ctes words (with_two no_meaning)).ctes
      ≡ length (children common_table_expr (two_ctes no_meaning)))
    × AllNamed (extract_ctes words (with_two no_meaning)).ctes
extract_ctes-AllNamed_example =
    extract_ctes-AllNamed words (with_two no_meaning) (two_ctes no_meaning) (unfold child in refl)
