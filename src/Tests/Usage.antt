-- ===== src/Tests/Usage.antt =====
-- A condition with a subquery.
use postgresparser.Prelude.{◌≡◌, true, [], map, All, Fresh}
use postgresparser.Usage.Collectors.{column_refs}
use postgresparser.Usage.Collectors.Scope.{outside}
use postgresparser.Usage.Collectors.Laws.{as_columnref, column_refs-outside}
use postgresparser.Usage.Comparison.{comparison_key, is_complete, recorded}
use postgresparser.Usage.Comparison.Laws.{recorded-Fresh}
use postgresparser.Tests.Setup.{ascii}
use postgresparser.Tests.Trees.{words, condition}

column_refs-outside_example : column_refs (condition tt) ≡ outside as_columnref (condition tt)
column_refs-outside_example = column_refs-outside (condition tt)

recorded-Fresh_example :
    Fresh [] (map comparison_key (recorded words (condition tt)))
    × All (λ c. is_complete c ≡ true) (recorded words (condition tt))
recorded-Fresh_example = recorded-Fresh words (condition tt)
