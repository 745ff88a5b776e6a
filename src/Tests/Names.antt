-- ===== src/Tests/Names.antt =====
-- Names with dots and quotes in them.
use postgresparser.Prelude.{◌≡◌, refl, [], ◌∷◌, map, codes, arith}
use postgresparser.Strings.{join, is_space}
use postgresparser.Names.{dot, split_quoted_dot, split_qualified_name}
use postgresparser.Names.Print.{Name, plain, quoted, print, IsPrintable}
use postgresparser.Names.RoundTrip.{split_quoted_dot-join, split_qualified_name-print}
use postgresparser.Tests.Setup.{ascii}

abbrev dotted : Name
dotted = quoted (codes "my.schema")

abbrev users_name : Name
users_name = plain (codes "users")

users_name-IsPrintable : IsPrintable users_name
users_name-IsPrintable = (ground arith, ground arith, unfold is_space in (refl, refl))

split_quoted_dot-join_example :
    split_quoted_dot (join dot (map print (dotted ∷ users_name ∷ [])))
    ≡ map print (dotted ∷ users_name ∷ [])
split_quoted_dot-join_example =
    split_quoted_dot-join dotted (users_name ∷ []) (tt, (users_name-IsPrintable, tt))

split_qualified_name-print_example : split_qualified_name (print dotted) ≡ ([], print dotted)
split_qualified_name-print_example = split_qualified_name-print dotted tt
