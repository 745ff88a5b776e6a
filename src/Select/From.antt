-- ===== src/Select/From.antt =====
-- The FROM clause of select.go: `extractFromClause`, `extractFromList` and `collectTableRefs`, with
-- the aliases of helpers.go. The map `cteNames` is the list of its keys.
pub mod Laws
use postgresparser.Prelude.{
  ℕ, zero, suc, Bool, true, false, Option, none, some, List, [], ◌∷◌, ◌++◌, Text, codes, contains,
  is_empty, length, if◌then◌else◌,
}
use postgresparser.Strings.{Unicode, to_lower, to_upper}
use postgresparser.Strings.Search.{contains_text}
use postgresparser.Names.{split_qualified_name}
use postgresparser.Errors.{Result, ok, err}
use postgresparser.Ir.{
  TableType, base, cte, function, subquery, TableRef, join, QueryFields, ParsedQuery, parsed,
}
use postgresparser.Tree.{TokenStream}
use postgresparser.Query.{fields, on_fields, add_subquery, add_tables}
use postgresparser.SetOps.{append_set_op_tables}
use postgresparser.Syntax.{
  Tree, Trees, terminal, rule, leaf, branch, child, children, is_rule, has_token, tree_text,
  trimmed_text, optional_text, ◌&>◌,
}
use postgresparser.Syntax.Rules.{
  using, relation_expr, qualified_name, alias_clause, func_table, func_alias_clause,
  select_with_parens, table_ref, join_qual, from_list, colid,
}
use postgresparser.Usage.Record.{find_and_record_usage}
use postgresparser.Usage.Using.{record_using}
use postgresparser.Select.Meaning.{Context, Meaning, value_of}
use postgresparser.Select.Lateral.{detect_lateral}
use postgresparser.Select.JoinMeta.{JoinMeta, join_metas}

module _ {A : Type 0} where
  -- `aliasFromAliasClause`
  unfoldable pub alias_of : TokenStream → Option (Tree A) → Text
  unfolding optional_text child
  alias_of tokens alias = optional_text tokens (alias &> child colid)

  func_alias : TokenStream → Tree A → Option (Tree A) → Text
  unfolding alias_of
  func_alias tokens ctx (some alias) = alias_of tokens (some alias)
  func_alias tokens ctx none = optional_text tokens (child colid ctx)

  -- `aliasFromFuncAlias`
  unfoldable pub func_alias_of : TokenStream → Option (Tree A) → Text
  unfolding func_alias
  func_alias_of tokens none = []
  func_alias_of tokens (some ctx) = func_alias tokens ctx (child alias_clause ctx)

-- `result.Tables[i].JoinType` and `.JoinCondition`, where the index is in range
unfoldable pub set_join_at : ℕ → JoinMeta → List TableRef → List TableRef
set_join_at i m [] = []
set_join_at zero m (t ∷ ts) =
    record t { join_type = m.join_type; join_condition = m.join_condition } ∷ ts
set_join_at (suc i) m (t ∷ ts) = t ∷ set_join_at i m ts

-- The metadata goes to the table that stands where the next one was added.
unfoldable pub with_meta : List JoinMeta → ℕ → ParsedQuery → ParsedQuery
unfolding on_fields set_join_at
with_meta [] before result = result
with_meta (m ∷ ms) before result =
    on_fields (λ q. record q { tables = set_join_at before m q.tables }) result

abbrev rest_of : List JoinMeta → List JoinMeta
rest_of [] = []
rest_of (m ∷ ms) = ms

-- `i` of the loop counts the `table_ref`s only.
unfoldable pub nested_step :
    Bool → List JoinMeta → ParsedQuery → ParsedQuery → List JoinMeta × ParsedQuery
unfolding with_meta
nested_step false metas before after = (metas, before)
nested_step true metas before after =
    (rest_of metas, with_meta metas (length (fields before).tables) after)

module _ ⦃u : Unicode⦄ (tokens : TokenStream) (cte_names : List Text) where
  unfoldable pub type_of : Text → TableType
  type_of relation = if contains cte_names (to_lower relation) then cte else base

  unfoldable pub relation_ref : Text → Text → Text → TableRef
  unfolding type_of
  relation_ref name alias raw =
      let parts = split_qualified_name name in
      record {
        schema = parts.0;
        name = parts.1;
        alias = alias;
        table_type = type_of parts.1;
        raw = raw;
        join_type = [];
        join_condition = [];
      }

  other_ref : Text → Text → TableType → Text → TableRef
  other_ref name alias t raw = record {
    schema = [];
    name = name;
    alias = alias;
    table_type = t;
    raw = raw;
    join_type = [];
    join_condition = [];
  }

  relation_table : Context → Context → TableRef
  unfolding relation_ref
  relation_table ref rel =
      relation_ref (optional_text tokens (child qualified_name rel))
        (alias_of tokens (child alias_clause ref)) (trimmed_text tokens rel)

  function_tables : Context → Context → ParsedQuery → ParsedQuery
  unfolding other_ref detect_lateral add_tables
  function_tables ref fn result =
      let name = trimmed_text tokens fn in
      let added =
        add_tables
          (other_ref name (func_alias_of tokens (child func_alias_clause ref)) function name ∷ [])
          result in
      if contains_text (codes "LATERAL") (to_upper (tree_text tokens ref))
      then on_fields (detect_lateral tokens fn) added
      else added

  nested_tables : Text → Result ParsedQuery → ParsedQuery → ParsedQuery
  unfolding add_subquery append_set_op_tables
  nested_tables alias (err e) result = result
  nested_tables alias (ok query) result =
      on_fields (λ q. append_set_op_tables q [] (fields query).tables)
        (add_subquery alias query result)

  subquery_tables : Context → Context → ParsedQuery → ParsedQuery
  unfolding other_ref nested_tables value_of add_tables
  subquery_tables ref sub result =
      let alias = alias_of tokens (child alias_clause ref) in
      nested_tables alias (value_of sub).query
        (add_tables (other_ref alias alias subquery (trimmed_text tokens sub) ∷ []) result)

  -- The three cases for the table itself.
  own_subquery : Context → Option Context → ParsedQuery → ParsedQuery
  unfolding subquery_tables
  own_subquery ref none result = result
  own_subquery ref (some sub) result = subquery_tables ref sub result

  own_function : Context → Option Context → ParsedQuery → ParsedQuery
  unfolding function_tables own_subquery
  own_function ref none result = own_subquery ref (child select_with_parens ref) result
  own_function ref (some fn) result = function_tables ref fn result

  own_relation : Context → Option Context → ParsedQuery → ParsedQuery
  unfolding relation_table own_function add_tables
  own_relation ref none result = own_function ref (child func_table ref) result
  own_relation ref (some rel) result = add_tables (relation_table ref rel ∷ []) result

  own_table : Context → ParsedQuery → ParsedQuery
  unfolding own_relation
  own_table ref result = own_relation ref (child relation_expr ref) result

  add_condition : Text → QueryFields → QueryFields
  add_condition text q =
      if is_empty text then q else record q { join_conditions = q.join_conditions ++ text ∷ [] }

  qual_usage : Context → QueryFields → QueryFields
  unfolding find_and_record_usage record_using
  qual_usage qual q =
      if has_token using qual
      then record_using q (trimmed_text tokens qual)
      else find_and_record_usage qual join q

  record_quals : List Context → QueryFields → QueryFields
  unfolding add_condition qual_usage
  record_quals [] q = q
  record_quals (qual ∷ quals) q =
      record_quals quals (qual_usage qual (add_condition (trimmed_text tokens qual) q))

  unfoldable mutual
    unfolding own_table record_quals nested_step join_metas is_rule

    -- `collectTableRefs`
    pub collect_table_refs : Context → ParsedQuery → ParsedQuery
    collect_table_refs (terminal t s) result = result
    collect_table_refs (rule r i j a cs) result =
        on_fields (record_quals (children join_qual (rule r i j a cs))) (
          collect_nested (join_metas tokens (rule r i j a cs)) cs
            (own_table (rule r i j a cs) result))

    pub collect_nested : List JoinMeta → Trees Meaning → ParsedQuery → ParsedQuery
    collect_nested metas leaf result = result
    collect_nested metas (branch c cs) result =
        let next = nested_step (is_rule table_ref c) metas result (collect_table_refs c result) in
        collect_nested (next.0) cs (next.1)

  collect_list : List Context → ParsedQuery → ParsedQuery
  unfolding collect_table_refs
  collect_list [] result = result
  collect_list (ref ∷ refs) result = collect_list refs (collect_table_refs ref result)

  -- `extractFromList`
  unfoldable pub extract_from_list : Option Context → ParsedQuery → ParsedQuery
  unfolding collect_list
  extract_from_list none result = result
  extract_from_list (some list) result = collect_list (children table_ref list) result

  -- `extractFromClause`
  unfoldable pub extract_from_clause : Option Context → ParsedQuery → ParsedQuery
  unfolding extract_from_list
  extract_from_clause none result = result
  extract_from_clause (some from) result = extract_from_list (child from_list from) result
