-- ===== src/Dml/Merge.antt =====
-- merge.go. The index of a text in upper case is used on the text itself; the model counts code
-- points, which is what the code does where `strings.ToUpper` keeps the number of bytes.
pub mod Laws
pub mod Kinds
use postgresparser.Prelude.{
  ℕ, ◌+◌, Bool, true, false, Option, none, some, List, [], ◌∷◌, ◌++◌, Text, codes, length, take,
  drop, get_elem?, ltb, if◌then◌else◌,
}
use postgresparser.Strings.{Unicode, to_upper, trim_space}
use postgresparser.Strings.Search.{index_of}
use postgresparser.Errors.{Result, ok, err}
use postgresparser.Ir.{
  subquery, TableRef, base_table, no_type, MergeAction, filter, join, merge_target, merge_source,
  merge_set, merge_insert, QueryFields, MergeFields, ParsedQuery, QueryPointer, nil, to, merge,
}
use postgresparser.Tree.{TokenStream}
use postgresparser.Query.{fields, on_fields, set_fields, add_subquery, set_merge}
use postgresparser.SetOps.{append_set_op_tables}
use postgresparser.Syntax.{
  Tree, child, children, get_children, is_rule, tree_text, trimmed_text, optional_text,
}
use postgresparser.Syntax.Rules.{
  qualified_name, alias_clause, select_with_parens, a_expr, insert_column_list, set_clause_list,
  merge_insert_clause, merge_update_clause, merge_delete_clause, values_clause,
}
use postgresparser.Usage.Record.{find_and_record_usage, find_in_optional}
use postgresparser.Select.Meaning.{Context, value_of}
use postgresparser.Select.From.{alias_of}
use postgresparser.Dml.Targets.{extract_insert_columns, extract_set_clauses, set_usage, named_table}

-- The earlier of an end and an index that is found.
unfoldable pub earlier : Option ℕ → ℕ → ℕ
earlier none finish = finish
earlier (some i) finish = if ltb i finish then i else finish

module _ ⦃u : Unicode⦄ where
  condition_end : Text → ℕ
  unfolding earlier
  condition_end after =
      earlier (index_of (codes " DELETE") (to_upper after))
        (earlier (index_of (codes " THEN") (to_upper after)) (length after))

  condition_at : Text → Option ℕ → Text
  unfolding condition_end
  condition_at text none = []
  condition_at text (some i) =
      let after = drop (i + 5) text in trim_space (take (condition_end after) after)

  -- `extractDeleteConditionFromText`
  unfoldable pub delete_condition : Text → Text
  unfolding condition_at index_of
  delete_condition text = condition_at text (index_of (codes " AND ") (to_upper text))

-- A `MergeAction` of which only the type is set.
empty_action : Text → MergeAction
empty_action t = record {
  action_type = t;
  condition = [];
  set_clauses = [];
  insert_columns = [];
  insert_values = [];
}

-- The actions so far, and the query.
pub record Actions : Type 0 where
  pub actions : List MergeAction
  pub query : QueryFields

add_action : MergeAction → QueryFields → Actions → Actions
add_action action q st = record { actions = st.actions ++ action ∷ []; query = q }

append_set : List Text → QueryFields → QueryFields
append_set clauses q = record q { set_clauses = q.set_clauses ++ clauses }

module _ ⦃u : Unicode⦄ {A : Type 0} (tokens : TokenStream) where
  -- `buildMergeInsertAction`
  unfoldable pub add_insert_action : Tree A → Actions → Actions
  unfolding add_action empty_action find_in_optional extract_insert_columns
  add_insert_action ctx st =
      let cond = child a_expr ctx in
      let values = child values_clause ctx in
      add_action
        (record (empty_action (codes "INSERT")) {
          condition = optional_text tokens cond;
          insert_columns = extract_insert_columns tokens (child insert_column_list ctx);
          insert_values = optional_text tokens values;
        })
        (find_in_optional values merge_insert (find_in_optional cond filter st.query)) st

  optional_set : Option (Tree A) → List Text
  unfolding extract_set_clauses
  optional_set none = []
  optional_set (some list) = extract_set_clauses tokens list

  record_set : Option (Tree A) → QueryFields → QueryFields
  unfolding set_usage
  record_set none q = q
  record_set (some list) q = set_usage tokens list merge_set merge_set q

  -- `buildMergeUpdateAction`; its SET clauses go to the query too
  unfoldable pub add_update_action : Tree A → Actions → Actions
  unfolding add_action empty_action find_in_optional optional_set record_set append_set
  add_update_action ctx st =
      let cond = child a_expr ctx in
      let list = child set_clause_list ctx in
      add_action
        (record (empty_action (codes "UPDATE")) {
          condition = optional_text tokens cond;
          set_clauses = optional_set list;
        })
        (append_set (optional_set list) (record_set list (find_in_optional cond filter st.query)))
        st

  -- `buildMergeDeleteAction`
  unfoldable pub add_delete_action : Tree A → Actions → Actions
  unfolding add_action empty_action delete_condition
  add_delete_action ctx st =
      add_action
        (record (empty_action (codes "DELETE")) {
          condition = delete_condition (tree_text tokens ctx);
        })
        st.query st

  add_child : Tree A → Actions → Actions
  unfolding add_insert_action add_update_action add_delete_action
  add_child c st =
      if is_rule merge_insert_clause c
      then add_insert_action c st
      else if is_rule merge_update_clause c
      then add_update_action c st
      else if is_rule merge_delete_clause c
      then add_delete_action c st
      else st

  unfoldable pub add_children : List (Tree A) → Actions → Actions
  unfolding add_child
  add_children [] st = st
  add_children (c ∷ cs) st = add_children cs (add_child c st)

-- The source: its table, and the alias and the query of a subquery.
pub record Source : Type 0 where
  pub source_table : TableRef
  pub alias : Text
  pub pointer : QueryPointer
  pub result : ParsedQuery

-- The zero value of `TableRef`, whose type is empty too.
abbrev unset_table : TableRef
unset_table = record (base_table [] [] []) { table_type = no_type }

module _ ⦃u : Unicode⦄ (tokens : TokenStream) where
  add_table : TableRef → QueryFields → QueryFields
  unfolding append_set_op_tables
  add_table t q = append_set_op_tables q [] (t ∷ [])

  named_by : Text → Option Context → TableRef
  unfolding named_table
  named_by alias none = unset_table
  named_by alias (some written) = named_table (trimmed_text tokens written) alias

  add_target : TableRef → Option Context → QueryFields → QueryFields
  unfolding add_table find_and_record_usage
  add_target t none q = q
  add_target t (some written) q = find_and_record_usage written merge_target (add_table t q)

  subquery_table : Text → Context → TableRef
  subquery_table alias swp = record {
    schema = [];
    name = alias;
    alias = alias;
    table_type = subquery;
    raw = trimmed_text tokens swp;
    join_type = [];
    join_condition = [];
  }

  source_query : Text → TableRef → Result ParsedQuery → ParsedQuery → Source
  unfolding add_subquery append_set_op_tables on_fields
  source_query alias t (err e) result = record {
    source_table = t;
    alias = [];
    pointer = nil;
    result = result;
  }
  source_query alias t (ok q) result = record {
    source_table = t;
    alias = alias;
    pointer = to q;
    result =
        on_fields (λ f. append_set_op_tables f [] (fields q).tables) (add_subquery alias q result);
  }

  source_name : Text → Option Context → ParsedQuery → Source
  unfolding named_table add_table find_and_record_usage on_fields
  source_name alias none result = record {
    source_table = unset_table;
    alias = [];
    pointer = nil;
    result = result;
  }
  source_name alias (some written) result =
      let t = named_table (trimmed_text tokens written) alias in
      record {
        source_table = t;
        alias = [];
        pointer = nil;
        result = on_fields (λ q. find_and_record_usage written merge_source (add_table t q)) result;
      }

  source_of : Text → Option Context → Option Context → ParsedQuery → Source
  unfolding source_query source_name subquery_table add_table value_of on_fields
  source_of alias written none result = source_name alias written result
  source_of alias written (some swp) result =
      let t = subquery_table alias swp in
      source_query alias t (value_of swp).query (on_fields (add_table t) result)

  finish : TableRef → Text → Source → Actions → ParsedQuery
  unfolding set_merge set_fields
  finish target condition source st =
      set_merge
        (merge
          (record {
            target = target;
            source_table = source.source_table;
            condition = condition;
            actions = st.actions;
          })
          source.alias source.pointer)
        (set_fields st.query source.result)

  with_source : TableRef → Context → Source → ParsedQuery
  unfolding finish add_children find_in_optional
  with_source target ctx source =
      let cond = child a_expr ctx in
      finish target (optional_text tokens cond) source (
        add_children tokens (get_children ctx)
          (record { actions = []; query = find_in_optional cond join (fields source.result) }))

  -- `populateMerge` on pointers that are not nil
  unfoldable pub populate_merge : ParsedQuery → Context → ParsedQuery
  unfolding with_source source_of named_by add_target alias_of on_fields
  populate_merge result ctx =
      let aliases = children alias_clause ctx in
      let names = children qualified_name ctx in
      let target = named_by (alias_of tokens (get_elem? aliases 0)) (get_elem? names 0) in
      with_source target ctx (
        source_of (alias_of tokens (get_elem? aliases 1)) (get_elem? names 1)
          (child select_with_parens ctx) (on_fields (add_target target (get_elem? names 0)) result))
