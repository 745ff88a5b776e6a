-- ===== src/Usage/Comparison/Grown.antt =====
-- Comparisons are added behind the other usages.
use postgresparser.Strings.{Unicode}
use postgresparser.Ir.{ColumnUsageType, QueryFields}
use postgresparser.Tree.{TokenStream}
use postgresparser.Query.Grown.{GrownFields}
use postgresparser.Syntax.{Tree}
use postgresparser.Usage.Record.Laws.{add_usages-Grown}
use postgresparser.Usage.Comparison.{find_and_record_comparisons}

pub find_and_record_comparisons-Grown :
    ⦃u : Unicode⦄ {A : Type 0} (tokens : TokenStream) (ctx : Tree A) (role : ColumnUsageType)
    (k : QueryFields)
    → GrownFields k (find_and_record_comparisons tokens ctx role k)
unfolding find_and_record_comparisons
find_and_record_comparisons-Grown tokens ctx role k = add_usages-Grown _ k
