-- ===== src/Select/From/Laws.antt =====
-- FROM adds tables, joins and usages behind those that are there.
use postgresparser.Prelude.{
  ◌≡◌, refl, ap, Bool, true, false, Bool-cases, inl, inr, Option, none, some, List, [], ◌∷◌, ◌++◌,
  Text, codes, is_empty, length,
}
use postgresparser.Strings.{Unicode, to_upper}
use postgresparser.Strings.Search.{contains_text}
use postgresparser.Errors.{Result, ok, err}
use postgresparser.Ir.{TableRef, join, QueryFields, ParsedQuery, parsed}
use postgresparser.Tree.{TokenStream}
use postgresparser.Query.{fields, on_fields, add_subquery, add_tables}
use postgresparser.Query.Grown.{
  Begins, Grown, GrownFields, fields_refl, fields_trans, Grown-refl, Grown-trans, unchanged-Grown,
  on_fields-Grown, add_tables-Grown, add_subquery-Grown,
}
use postgresparser.SetOps.Grown.{append_set_op_tables-Grown}
use postgresparser.Syntax.{
  Trees, terminal, rule, leaf, branch, child, children, is_rule, has_token, tree_text, trimmed_text,
}
use postgresparser.Syntax.Rules.{
  using, relation_expr, func_table, select_with_parens, table_ref, join_qual, from_list,
}
use postgresparser.Usage.Record.Laws.{find_and_record_usage-Grown}
use postgresparser.Usage.Using.Laws.{record_using-Grown}
use postgresparser.Select.Meaning.{Context, Meaning}
use postgresparser.Select.Lateral.{detect_lateral}
use postgresparser.Select.JoinMeta.{JoinMeta, join_metas}
use postgresparser.Select.From.{
  set_join_at, with_meta, nested_step, nested_tables, function_tables, subquery_tables,
  own_subquery, own_function, own_relation, own_table, add_condition, qual_usage, record_quals,
  collect_table_refs, collect_nested, collect_list, extract_from_list, extract_from_clause,
}

-- The metadata of a join goes to a table that was added.
set_join_at_append :
    (m : JoinMeta) (ts more : List TableRef)
    → set_join_at (length ts) m (ts ++ more) ≡ ts ++ set_join_at 0 m more
unfolding set_join_at
set_join_at_append m [] more = refl
set_join_at_append m (t ∷ ts) more = ap (λ rest. t ∷ rest) (set_join_at_append m ts more)

set_join_at-Begins :
    (m : JoinMeta) (ts us : List TableRef) → Begins ts us → Begins ts (set_join_at (length ts) m us)
unfolding Begins
set_join_at-Begins m ts us h = (set_join_at 0 m (h.0), rw (h.1) (set_join_at_append m ts (h.0)))

with_meta-Grown :
    (metas : List JoinMeta) (q r : ParsedQuery)
    → Grown q r
    → Grown q (with_meta metas (length (fields q).tables) r)
unfolding with_meta Grown on_fields fields
with_meta-Grown [] q r h = h
with_meta-Grown (m ∷ ms) q (parsed k subs ctes old) h = record {
  same_command = h.same_command;
  same_text = h.same_text;
  more_tables = set_join_at-Begins m (fields q).tables k.tables h.more_tables;
  more_usages = h.more_usages;
}

nested_step-Grown :
    (b : Bool) (metas : List JoinMeta) (q r : ParsedQuery)
    → Grown q r
    → Grown q ((nested_step b metas q r).1)
unfolding nested_step
nested_step-Grown false metas q r h = Grown-refl q
nested_step-Grown true metas q r h = with_meta-Grown metas q r h

module _ ⦃u : Unicode⦄ (tokens : TokenStream) (names : List Text) where
  nested_tables-Grown :
      (alias : Text) (r : Result ParsedQuery) (q : ParsedQuery)
      → Grown q (nested_tables tokens names alias r q)
  unfolding nested_tables
  nested_tables-Grown alias (err e) q = Grown-refl q
  nested_tables-Grown alias (ok query) q =
      Grown-trans q (add_subquery alias query q) _ (add_subquery-Grown alias query q)
        (on_fields-Grown _ _ (λ k. append_set_op_tables-Grown k _ _))

  detect_lateral-Grown :
      (fn : Context) (k : QueryFields) → GrownFields k (detect_lateral tokens fn k)
  unfolding detect_lateral
  detect_lateral-Grown fn k = unchanged-Grown k _ refl refl refl refl

  function_tables-Grown :
      (ref fn : Context) (q : ParsedQuery) → Grown q (function_tables tokens names ref fn q)
  unfolding function_tables
  function_tables-Grown ref fn q =
      elim (Bool-cases (contains_text (codes "LATERAL") (to_upper (tree_text tokens ref)))) [
        | inl h ↦ rw h (
            Grown-trans q (add_tables _ q) _ (add_tables-Grown _ q)
              (on_fields-Grown _ _ (detect_lateral-Grown fn)))
        | inr h ↦ rw h (add_tables-Grown _ q)
      ]

  subquery_tables-Grown :
      (ref sub : Context) (q : ParsedQuery) → Grown q (subquery_tables tokens names ref sub q)
  unfolding subquery_tables
  subquery_tables-Grown ref sub q =
      Grown-trans q (add_tables _ q) _ (add_tables-Grown _ q) (nested_tables-Grown _ _ _)

  own_subquery-Grown :
      (ref : Context) (sub : Option Context) (q : ParsedQuery)
      → Grown q (own_subquery tokens names ref sub q)
  unfolding own_subquery
  own_subquery-Grown ref none q = Grown-refl q
  own_subquery-Grown ref (some sub) q = subquery_tables-Grown ref sub q

  own_function-Grown :
      (ref : Context) (fn : Option Context) (q : ParsedQuery)
      → Grown q (own_function tokens names ref fn q)
  unfolding own_function
  own_function-Grown ref none q = own_subquery-Grown ref (child select_with_parens ref) q
  own_function-Grown ref (some fn) q = function_tables-Grown ref fn q

  own_relation-Grown :
      (ref : Context) (rel : Option Context) (q : ParsedQuery)
      → Grown q (own_relation tokens names ref rel q)
  unfolding own_relation
  own_relation-Grown ref none q = own_function-Grown ref (child func_table ref) q
  own_relation-Grown ref (some rel) q = add_tables-Grown _ q

  own_table-Grown : (ref : Context) (q : ParsedQuery) → Grown q (own_table tokens names ref q)
  unfolding own_table
  own_table-Grown ref q = own_relation-Grown ref (child relation_expr ref) q

  add_condition-Grown :
      (text : Text) (k : QueryFields) → GrownFields k (add_condition tokens names text k)
  unfolding add_condition
  add_condition-Grown text k = elim (Bool-cases (is_empty text)) [
    | inl h ↦ rw h (fields_refl k)
    | inr h ↦ rw h (unchanged-Grown k _ refl refl refl refl)
  ]

  qual_usage-Grown :
      (qual : Context) (k : QueryFields) → GrownFields k (qual_usage tokens names qual k)
  unfolding qual_usage
  qual_usage-Grown qual k = elim (Bool-cases (has_token using qual)) [
    | inl h ↦ rw h (record_using-Grown k _)
    | inr h ↦ rw h (find_and_record_usage-Grown qual join k)
  ]

  record_quals-Grown :
      (quals : List Context) (k : QueryFields) → GrownFields k (record_quals tokens names quals k)
  unfolding record_quals
  record_quals-Grown [] k = fields_refl k
  record_quals-Grown (qual ∷ quals) k =
      fields_trans k (add_condition tokens names (trimmed_text tokens qual) k) _
        (add_condition-Grown _ k)
        (fields_trans _ (qual_usage tokens names qual _) _ (qual_usage-Grown qual _)
          (record_quals-Grown quals _))

  mutual
    unfolding collect_table_refs collect_nested

    refs-Grown : (ref : Context) (q : ParsedQuery) → Grown q (collect_table_refs tokens names ref q)
    refs-Grown (terminal t s) q = Grown-refl q
    refs-Grown (rule r i j a cs) q =
        Grown-trans q (own_table tokens names (rule r i j a cs) q) _
          (own_table-Grown (rule r i j a cs) q)
          (Grown-trans _ (collect_nested tokens names (join_metas tokens (rule r i j a cs)) cs _) _
            (collect_nested-Grown _ cs _)
            (on_fields-Grown _ _ (record_quals-Grown (children join_qual (rule r i j a cs)))))

    collect_nested-Grown :
        (metas : List JoinMeta) (cs : Trees Meaning) (q : ParsedQuery)
        → Grown q (collect_nested tokens names metas cs q)
    collect_nested-Grown metas leaf q = Grown-refl q
    collect_nested-Grown metas (branch c cs) q =
        Grown-trans q
          ((nested_step (is_rule table_ref c) metas q (collect_table_refs tokens names c q)).1) _
          (nested_step-Grown (is_rule table_ref c) metas q _ (refs-Grown c q))
          (collect_nested-Grown _ cs _)

  -- The walk over a join tree keeps the command and the text of the query, and the tables and the
  -- column usages that it leaves are those that were there, unchanged and in their order, with more
  -- behind them: the type and the condition of a join are written to no table that was there before.
  pub collect_table_refs-Grown :
      (ref : Context) (q : ParsedQuery) → Grown q (collect_table_refs tokens names ref q)
  collect_table_refs-Grown ref q = refs-Grown ref q

  collect_list-Grown :
      (refs : List Context) (q : ParsedQuery) → Grown q (collect_list tokens names refs q)
  unfolding collect_list
  collect_list-Grown [] q = Grown-refl q
  collect_list-Grown (ref ∷ refs) q =
      Grown-trans q (collect_table_refs tokens names ref q) _ (collect_table_refs-Grown ref q)
        (collect_list-Grown refs _)

  pub extract_from_list-Grown :
      (list : Option Context) (q : ParsedQuery) → Grown q (extract_from_list tokens names list q)
  unfolding extract_from_list
  extract_from_list-Grown none q = Grown-refl q
  extract_from_list-Grown (some list) q = collect_list-Grown (children table_ref list) q

  pub extract_from_clause-Grown :
      (from : Option Context) (q : ParsedQuery) → Grown q (extract_from_clause tokens names from q)
  unfolding extract_from_clause
  extract_from_clause-Grown none q = Grown-refl q
  extract_from_clause-Grown (some from) q = extract_from_list-Grown (child from_list from) q
