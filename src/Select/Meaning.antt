-- ===== src/Select/Meaning.antt =====
-- `resolveSelect` and `resolveSelectFromParens` of select.go, `buildSubqueryRef` of setops.go and
-- `extractExpressionSubqueries` of helpers.go. Each context of a nested select or statement carries
-- its meaning, which the code works out where it meets the context; `Nested.annotate` puts it there.
pub mod Sound
use postgresparser.Prelude.{
  Bool, true, false, Option, none, some, List, [], ◌∷◌, Text, codes, if◌then◌else◌,
}
use postgresparser.Errors.{Error, unsupported, nil_context, Result, ok, err, ◌>>=◌}
use postgresparser.Ir.{
  TableRef, SetOperation, ParsedQuery, Subqueries, no_subqueries, subquery_ref, to,
}
use postgresparser.Query.{add_subquery}
use postgresparser.Syntax.{Tree, Trees, terminal, rule, leaf, branch, child, nth_child, is_rule}
use postgresparser.Syntax.Rules.{
  select_no_parens, select_with_parens, select_clause, simple_select_intersect,
  simple_select_primary, with_clause,
}
use postgresparser.Usage.Collectors.{direct_subqueries}

-- What `extractSetOperationsWithResult` returns.
pub record SetOps : Type 0 where
  pub ops : List SetOperation
  pub leading : List TableRef
  pub subqueries : Subqueries

unfoldable pub no_set_ops : SetOps
no_set_ops = record { ops = []; leading = []; subqueries = no_subqueries }

-- `query` is the query of `buildSubqueryRef`, or that of `parsePreparableStmtToIR`; `set_ops` is
-- `extractSetOperationsWithResult` without a result, by the names of the CTEs; `project` is
-- `extractProjection` of the select in the parentheses.
pub record Meaning : Type 0 where
  pub query : Result ParsedQuery
  pub set_ops : List Text → SetOps
  pub project : ParsedQuery → ParsedQuery

abbrev pub Context : Type 0
Context = Tree Meaning

unfoldable pub no_meaning : Meaning
unfolding no_set_ops
no_meaning = record {
  query = err (nil_context []);
  set_ops = λ names. no_set_ops;
  project = λ q. q;
}

unfoldable pub value_of : Context → Meaning
unfolding no_meaning
value_of (terminal t s) = no_meaning
value_of (rule r i j a cs) = a

-- A context, or an error where it is missing.
unfoldable pub required : {A : Type 0} → Text → Option A → Result A
required message none = err (unsupported message)
required message (some t) = ok t

-- `With_clause()`, the primary, and the `select_no_parens`
pub record Resolved (A : Type 0) : Type 0 where
  pub with_ctx : Option (Tree A)
  pub simple : Tree A
  pub select_ctx : Tree A

or_else : {A : Type 0} → Option A → Option A → Option A
or_else (some inner) deeper = some inner
or_else none deeper = deeper

module _ {A : Type 0} where
  -- the first primary of a `select_no_parens`
  unfoldable pub primary_of : Tree A → Result (Tree A)
  unfolding required
  primary_of snp = required (codes "missing select clause") (child select_clause snp) >>= λ clause.
      required (codes "missing simple select") (nth_child simple_select_intersect 0 clause)
      >>= λ simple.
          required (codes "missing simple select primary")
            (nth_child simple_select_primary 0 simple)

  -- The loop of `resolveSelectFromParens`: the `select_no_parens` in the innermost parentheses.
  unfoldable mutual
    unfolding or_else is_rule child

    pub unwrap : Tree A → Option (Tree A)
    unwrap (terminal t s) = none
    unwrap (rule r i j a cs) = or_else (child select_no_parens (rule r i j a cs)) (unwrap_first cs)

    pub unwrap_first : Trees A → Option (Tree A)
    unwrap_first leaf = none
    unwrap_first (branch c cs) =
        let here = unwrap c in
        let rest = unwrap_first cs in if is_rule select_with_parens c then here else rest

  resolved : Option (Tree A) → Tree A → Result (Resolved A)
  unfolding primary_of
  resolved with_ctx snp = primary_of snp >>= λ simple.
      ok (record { with_ctx = with_ctx; simple = simple; select_ctx = snp })

  -- `resolveSelectFromParens`, which does not hand on the WITH clause
  unfoldable pub resolve_from_parens : Tree A → Result (Resolved A)
  unfolding resolved required
  resolve_from_parens swp =
      required (codes "unable to unwrap parenthesized select") (unwrap swp) >>= λ snp.
      resolved none snp

  resolve_parens_of : Tree A → Result (Resolved A)
  unfolding resolve_from_parens required
  resolve_parens_of ctx =
      required (codes "unable to resolve select statement") (child select_with_parens ctx)
      >>= λ swp. resolve_from_parens swp

  resolve_by : Tree A → Option (Tree A) → Result (Resolved A)
  unfolding resolved resolve_parens_of
  resolve_by ctx (some snp) = resolved (child with_clause snp) snp
  resolve_by ctx none = resolve_parens_of ctx

  -- `resolveSelect` on a context that is not nil
  unfoldable pub resolve_select : Tree A → Result (Resolved A)
  unfolding resolve_by
  resolve_select ctx = resolve_by ctx (child select_no_parens ctx)

add_found : Text → Result ParsedQuery → ParsedQuery → ParsedQuery
unfolding add_subquery
add_found alias (err e) result = result
add_found alias (ok query) result = add_subquery alias query result

add_each : List Context → ParsedQuery → ParsedQuery
unfolding add_found value_of
add_each [] result = result
add_each (swp ∷ swps) result = add_each swps (add_found [] (value_of swp).query result)

-- `extractExpressionSubqueries`
unfoldable pub expression_subqueries : Context → ParsedQuery → ParsedQuery
unfolding add_each direct_subqueries
expression_subqueries expr result = add_each (direct_subqueries expr) result
