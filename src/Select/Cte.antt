-- ===== src/Select/Cte.antt =====
-- `extractCTEs`, `extractTablesFromPreparableStmt` and `extractTablesFromParsedQuery` of select.go,
-- and `buildCTENameSet` of dml_common.go.
pub mod Laws
use postgresparser.Prelude.{
  ℕ, suc, Bool, true, false, Option, none, some, List, [], ◌∷◌, ◌++◌, Text, codes, is_empty,
  if◌then◌else◌,
}
use postgresparser.Strings.{Unicode, to_lower}
use postgresparser.Strings.Decimal.{decimal}
use postgresparser.Errors.{Result, ok, err}
use postgresparser.Ir.{
  TableRef, QueryFields, CteFields, ParsedQuery, parsed, QueryPointer, nil, to, Subqueries,
  no_subqueries, subquery_ref, Ctes, no_ctes, cte_ref, Merge,
}
use postgresparser.Tree.{TokenStream}
use postgresparser.Query.{append_ctes, add_ctes, add_tables}
use postgresparser.Syntax.{Tree, child, children, optional_text, ◌&>◌}
use postgresparser.Syntax.Rules.{cte_list, common_table_expr, materialized, preparablestmt, name}
use postgresparser.Select.Meaning.{Context, value_of}

-- `extractTablesFromParsedQuery`
unfoldable mutual
  pub tables_within : ParsedQuery → List TableRef
  tables_within (parsed q subs ctes m) = q.tables ++ tables_of_subqueries subs

  pub tables_of_pointer : QueryPointer → List TableRef
  tables_of_pointer nil = []
  tables_of_pointer (to q) = tables_within q

  pub tables_of_subqueries : Subqueries → List TableRef
  tables_of_subqueries no_subqueries = []
  tables_of_subqueries (subquery_ref alias q rest) =
      tables_of_pointer q ++ tables_of_subqueries rest

-- The CTEs and the tables that `extractCTEs` returns.
pub record Extracted : Type 0 where
  pub ctes : Ctes
  pub tables : List TableRef

unfoldable pub cte_count : Ctes → ℕ
cte_count no_ctes = 0
cte_count (cte_ref c q rest) = suc (cte_count rest)

-- `extractTablesFromPreparableStmt`, which parses the statement once more
tables_of_stmt : Result ParsedQuery → List TableRef
unfolding tables_within
tables_of_stmt (err e) = []
tables_of_stmt (ok q) = tables_within q

body_tables : Result ParsedQuery → List TableRef
unfolding tables_within tables_of_stmt
body_tables (ok q) = tables_within q
body_tables (err e) = tables_of_stmt (err e)

body_pointer : Result ParsedQuery → QueryPointer
body_pointer (ok q) = to q
body_pointer (err e) = nil

cte_name : Text → ℕ → Text
cte_name written count = if is_empty written then codes "cte_" ++ decimal (suc count) else written

unfoldable pub single_cte : CteFields → Result ParsedQuery → Ctes
unfolding body_pointer
single_cte c body = cte_ref c (body_pointer body) no_ctes

module _ (tokens : TokenStream) where
  cte_fields : Context → ℕ → CteFields
  unfolding optional_text cte_name
  cte_fields ctx count = record {
    name = cte_name (optional_text tokens (child name ctx)) count;
    query = optional_text tokens (child preparablestmt ctx);
    materialized = optional_text tokens (child materialized ctx);
  }

  -- A CTE without a body has no query.
  add_cte : CteFields → Option Context → Extracted → Extracted
  unfolding append_ctes single_cte body_tables value_of
  add_cte c none found = record found { ctes = append_ctes found.ctes (cte_ref c nil no_ctes) }
  add_cte c (some stmt) found = record {
    ctes = append_ctes found.ctes (single_cte c (value_of stmt).query);
    tables = found.tables ++ body_tables (value_of stmt).query;
  }

  unfoldable pub extract_each : List Context → Extracted → Extracted
  unfolding cte_fields add_cte cte_count
  extract_each [] found = found
  extract_each (ctx ∷ ctxs) found =
      extract_each ctxs
        (add_cte (cte_fields ctx (cte_count found.ctes)) (child preparablestmt ctx) found)

  listed : Option Context → List Context
  listed none = []
  listed (some list) = children common_table_expr list

  -- `extractCTEs`
  unfoldable pub extract_ctes : Context → Extracted
  unfolding extract_each listed
  extract_ctes with_ctx =
      extract_each (listed (child cte_list with_ctx)) (record { ctes = no_ctes; tables = [] })

  -- The statements that begin with WITH add both to the result.
  unfoldable pub add_with : Option Context → ParsedQuery → ParsedQuery
  unfolding extract_ctes add_ctes add_tables
  add_with none result = result
  add_with (some with_ctx) result =
      let found = extract_ctes with_ctx in add_tables found.tables (add_ctes found.ctes result)

-- `buildCTENameSet`, and the loop of `populateSelectFromResolvedNested`
unfoldable pub cte_name_set : ⦃u : Unicode⦄ → Ctes → List Text
cte_name_set no_ctes = []
cte_name_set (cte_ref c q rest) =
    let names = cte_name_set rest in if is_empty c.name then names else to_lower c.name ∷ names
