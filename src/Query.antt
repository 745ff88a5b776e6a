-- ===== src/Query.antt =====
-- Updates of a `*ParsedQuery`.
pub mod Grown
use postgresparser.Prelude.{Option, none, some, List, [], ◌∷◌, ◌++◌, Text}
use postgresparser.Ir.{
  QueryFields, TableRef, ParsedQuery, parsed, Subqueries, no_subqueries, subquery_ref, QueryPointer,
  nil, to, Ctes, no_ctes, cte_ref, Merge,
}

unfoldable pub fields : ParsedQuery → QueryFields
fields (parsed q subs ctes m) = q

unfoldable pub subqueries : ParsedQuery → Subqueries
subqueries (parsed q subs ctes m) = subs

unfoldable pub ctes_of : ParsedQuery → Ctes
ctes_of (parsed q subs ctes m) = ctes

unfoldable pub on_fields : (QueryFields → QueryFields) → ParsedQuery → ParsedQuery
on_fields f (parsed q subs ctes m) = parsed (f q) subs ctes m

unfoldable pub set_fields : QueryFields → ParsedQuery → ParsedQuery
set_fields f (parsed q subs ctes m) = parsed f subs ctes m

unfoldable pub append_subqueries : Subqueries → Subqueries → Subqueries
append_subqueries no_subqueries ss = ss
append_subqueries (subquery_ref alias q rest) ss = subquery_ref alias q (append_subqueries rest ss)

unfoldable pub append_ctes : Ctes → Ctes → Ctes
append_ctes no_ctes cs = cs
append_ctes (cte_ref c q rest) cs = cte_ref c q (append_ctes rest cs)

-- `result.Subqueries = append(result.Subqueries, more...)`
unfoldable pub add_subqueries : Subqueries → ParsedQuery → ParsedQuery
unfolding append_subqueries
add_subqueries more (parsed q subs ctes m) = parsed q (append_subqueries subs more) ctes m

unfoldable pub add_subquery : Text → ParsedQuery → ParsedQuery → ParsedQuery
unfolding add_subqueries
add_subquery alias query result =
    add_subqueries (subquery_ref alias (to query) no_subqueries) result

unfoldable pub add_ctes : Ctes → ParsedQuery → ParsedQuery
unfolding append_ctes
add_ctes more (parsed q subs ctes m) = parsed q subs (append_ctes ctes more) m

unfoldable pub set_merge : Merge → ParsedQuery → ParsedQuery
set_merge m (parsed q subs ctes old) = parsed q subs ctes m

unfoldable pub add_tables : List TableRef → ParsedQuery → ParsedQuery
unfolding on_fields
add_tables ts = on_fields (λ q. record q { tables = q.tables ++ ts })
