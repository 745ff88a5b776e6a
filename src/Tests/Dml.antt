-- ===== src/Tests/Dml.antt =====
-- An upsert and a MERGE.
use postgresparser.Prelude.{◌≡◌}
use postgresparser.Entry.Statement.{new_parsed_query}
use postgresparser.Prelude.{[]}
use postgresparser.Ir.{merge}
use postgresparser.Syntax.{get_children}
use postgresparser.Select.Meaning.{no_meaning}
use postgresparser.Dml.Insert.{build_upsert_clause}
use postgresparser.Dml.Insert.Upsert.{IsActionOf, build_upsert_clause-IsActionOf}
use postgresparser.Dml.Merge.{populate_merge}
use postgresparser.Dml.Merge.Kinds.{action_types, all_clause_types, populate_merge_actions}
use postgresparser.Tests.Setup.{ascii, empty_query}
use postgresparser.Tests.Trees.{words, do_nothing, merge_two}

build_upsert_clause-IsActionOf_example :
    IsActionOf (do_nothing tt) (build_upsert_clause words (do_nothing tt) empty_query).clause
build_upsert_clause-IsActionOf_example =
    build_upsert_clause-IsActionOf words (do_nothing tt) empty_query

populate_merge_actions_example :
    action_types (populate_merge words (new_parsed_query merge []) (merge_two no_meaning))
    ≡ all_clause_types (get_children (merge_two no_meaning))
populate_merge_actions_example =
    populate_merge_actions words (new_parsed_query merge []) (merge_two no_meaning)
