-- ===== src/Tests/Trees.antt =====
-- Trees of statements, over any value for the contexts.
use postgresparser.Prelude.{ℕ, some, List, [], ◌∷◌, Text, codes}
use postgresparser.Tree.{TokenStream}
use postgresparser.Syntax.{Tree, Trees, terminal, rule, leaf, branch}
use postgresparser.Syntax.Rules.{
  Rule, inner, using, nothing, other_token, selectstmt, select_no_parens, select_with_parens,
  select_clause, simple_select_intersect, simple_select_primary, with_clause, cte_list,
  common_table_expr, preparablestmt, opt_target_list, target_list, target_label, from_clause,
  from_list, table_ref, relation_expr, qualified_name, join_type, join_qual, where_clause, a_expr,
  a_expr_compare, columnref, name, colid, mergestmt, opt_on_conflict, merge_insert_clause,
  merge_delete_clause,
}
use postgresparser.Tests.Setup.{stream_of}

-- The words that the contexts stand for, by the index of their token.
abbrev pub words : TokenStream
words = stream_of (
    codes "users"
    ∷ codes "orders"
    ∷ codes "id"
    ∷ codes "total"
    ∷ codes "USING (id)"
    ∷ codes "id = total"
    ∷ codes "DO NOTHING"
    ∷ [])

module _ {A : Type 0} (a : A) where
  abbrev pub trees : List (Tree A) → Trees A
  trees [] = leaf
  trees (t ∷ ts) = branch t (trees ts)

  abbrev pub context : Rule → ℕ → List (Tree A) → Tree A
  context r i ts = rule r (some i) (some i) a (trees ts)

  abbrev pub word : Text → Tree A
  word s = terminal other_token s

  abbrev pub column : ℕ → Text → Tree A
  column i s = context columnref i (context colid i (word s ∷ []) ∷ [])

  abbrev pub relation : ℕ → Tree A
  relation i = context relation_expr i (context qualified_name i [] ∷ [])

  -- `users INNER JOIN orders USING (id)`
  abbrev pub joined_tables : Tree A
  joined_tables = context table_ref 0 (
      relation 0
      ∷ context join_type 0 (terminal inner (codes "INNER") ∷ [])
      ∷ word (codes "JOIN")
      ∷ context table_ref 1 (relation 1 ∷ [])
      ∷ context join_qual 4 (terminal using (codes "USING") ∷ [])
      ∷ [])

  -- `(SELECT total)`
  abbrev pub inner_select : Tree A
  inner_select = context select_with_parens 3 (
      context select_no_parens 3 (
        context select_clause 3 (
          context simple_select_intersect 3 (
            context simple_select_primary 3 (
              context opt_target_list 3 (
                context target_list 3 (
                  context target_label 3 (context a_expr 3 (column 3 (codes "total") ∷ []) ∷ [])
                  ∷ [])
                ∷ [])
              ∷ [])
            ∷ [])
          ∷ [])
        ∷ [])
      ∷ [])

  -- `id = total` and a subquery
  abbrev pub condition : Tree A
  condition = context a_expr 5 (
      context a_expr_compare 5
        (column 2 (codes "id") ∷ word (codes "=") ∷ column 3 (codes "total") ∷ inner_select ∷ [])
      ∷ [])

  -- A `select_clause` of a projection, a join and a condition.
  abbrev pub select_of_join : Tree A
  select_of_join = context select_clause 0 (
      context simple_select_intersect 0 (
        context simple_select_primary 0 (
          context opt_target_list 2 (
            context target_list 2
              (context target_label 2 (context a_expr 2 (column 2 (codes "id") ∷ []) ∷ []) ∷ [])
            ∷ [])
          ∷ context from_clause 0 (context from_list 0 (joined_tables ∷ []) ∷ [])
          ∷ context where_clause 5 (condition ∷ [])
          ∷ [])
        ∷ [])
      ∷ [])

  abbrev pub plain_select : Tree A
  plain_select = context select_no_parens 0 (select_of_join ∷ [])

  abbrev pub select_statement : Tree A
  select_statement = context selectstmt 0 (plain_select ∷ [])

  -- a list of two CTEs, the second of which has no name
  abbrev pub two_ctes : Tree A
  two_ctes = context cte_list 0 (
      context common_table_expr 0 (context name 0 [] ∷ context preparablestmt 0 [] ∷ [])
      ∷ context common_table_expr 1 (context preparablestmt 1 [] ∷ [])
      ∷ [])

  abbrev pub with_two : Tree A
  with_two = context with_clause 0 (two_ctes ∷ [])

  -- `ON CONFLICT DO NOTHING`
  abbrev pub do_nothing : Tree A
  do_nothing = context opt_on_conflict 6 (terminal nothing (codes "NOTHING") ∷ [])

  -- a MERGE of `users` and `orders` that deletes, then inserts
  abbrev pub merge_two : Tree A
  merge_two = context mergestmt 0 (
      context qualified_name 0 []
      ∷ context qualified_name 1 []
      ∷ context merge_delete_clause 1 []
      ∷ context merge_insert_clause 1 []
      ∷ [])
