-- ===== src/SetOps/Grown.antt =====
-- The tables of set operations are added behind those of the query.
use postgresparser.Prelude.{List}
use postgresparser.Strings.{Unicode}
use postgresparser.Ir.{TableRef, SetOperation, QueryFields}
use postgresparser.Query.Grown.{GrownFields, more_tables-Grown}
use postgresparser.SetOps.{append_set_op_tables}

pub append_set_op_tables-Grown :
    ⦃u : Unicode⦄ (q : QueryFields) (ops : List SetOperation) (leading : List TableRef)
    → GrownFields q (append_set_op_tables q ops leading)
unfolding append_set_op_tables
append_set_op_tables-Grown q ops leading = more_tables-Grown q _
