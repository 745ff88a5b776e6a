-- ===== src/Dml/Insert.antt =====
-- dml_insert.go: `populateInsert` and `buildUpsertClause`.
pub mod Laws
pub mod Upsert
use postgresparser.Prelude.{
  Bool, true, false, not, Option, none, some, List, [], ◌∷◌, ◌++◌, Text, codes, if◌then◌else◌,
}
use postgresparser.Strings.{Unicode}
use postgresparser.Errors.{Result, ok, err, ◌>>=◌}
use postgresparser.Ir.{
  UpsertClause, filter, dml_set, upsert_target, upsert_set, QueryFields, ParsedQuery,
}
use postgresparser.Tree.{TokenStream}
use postgresparser.Query.{on_fields}
use postgresparser.Syntax.{Tree, child, has_token, trimmed_text, optional_text, ◌&>◌}
use postgresparser.Syntax.Rules.{
  nothing, update, qualified_name, where_clause, name, colid, selectstmt, with_clause,
  opt_with_clause, insert_target, insert_rest, insert_column_list, opt_on_conflict, opt_conf_expr,
  index_params, index_elem, set_clause_list, returning_clause,
}
use postgresparser.Usage.Record.{find_and_record_usage, find_in_optional}
use postgresparser.Select.Meaning.{Context}
use postgresparser.Select.Cte.{add_with}
use postgresparser.Select.Populate.{populate_select}
use postgresparser.Dml.Targets.{
  child_texts, extract_insert_columns, extract_set_clauses, set_usage, named_table, add_returning,
}

-- An upsert clause, with the query that its columns are recorded in.
pub record Built : Type 0 where
  pub clause : UpsertClause
  pub query : QueryFields

store_upsert : Built → QueryFields
store_upsert b = record b.query {
  upsert = some b.clause;
  set_clauses = b.query.set_clauses ++ b.clause.set_clauses;
}

module _ ⦃u : Unicode⦄ {A : Type 0} (tokens : TokenStream) where
  conflict_params : Option (Tree A) → Built → Built
  unfolding child_texts find_and_record_usage
  conflict_params none b = b
  conflict_params (some params) b = record {
    clause = record b.clause {
      target_columns = b.clause.target_columns ++ child_texts tokens index_elem params;
    };
    query = find_and_record_usage params upsert_target b.query;
  }

  -- The target: columns, predicate and constraint.
  conflict_target : Option (Tree A) → Built → Built
  unfolding conflict_params find_in_optional
  conflict_target none b = b
  conflict_target (some expr) b =
      let first = conflict_params (child index_params expr) b in
      let predicate = child where_clause expr in
      record {
        clause = record first.clause {
          target_where = optional_text tokens predicate;
          constraint = optional_text tokens (child name expr);
        };
        query = find_in_optional predicate filter first.query;
      }

  action_set : Option (Tree A) → Built → Built
  unfolding extract_set_clauses set_usage
  action_set none b = b
  action_set (some list) b = record {
    clause = record b.clause { set_clauses = extract_set_clauses tokens list };
    query = set_usage tokens list dml_set upsert_set b.query;
  }

  -- `DO UPDATE`
  action_update : Tree A → Built → Built
  unfolding action_set find_in_optional
  action_update conflict b =
      let set = action_set (child set_clause_list conflict) b in
      let predicate = child where_clause conflict in
      record {
        clause = record set.clause {
          action = codes "DO UPDATE";
          action_where = optional_text tokens predicate;
        };
        query = find_in_optional predicate filter set.query;
      }

  conflict_action : Tree A → Built → Built
  unfolding action_update
  conflict_action conflict b =
      let skip = record b { clause = record b.clause { action = codes "DO NOTHING" } } in
      if has_token nothing conflict
      then skip
      else if has_token update conflict
      then action_update conflict b
      else skip

  -- `buildUpsertClause`
  unfoldable pub build_upsert_clause : Tree A → QueryFields → Built
  unfolding conflict_target conflict_action
  build_upsert_clause conflict q = conflict_action conflict (
      conflict_target (child opt_conf_expr conflict) (record {
        clause = record {
          target_columns = [];
          target_where = [];
          constraint = [];
          action = [];
          set_clauses = [];
          action_where = [];
        };
        query = q;
      }))

  add_upsert : Option (Tree A) → QueryFields → QueryFields
  unfolding build_upsert_clause store_upsert
  add_upsert none q = q
  add_upsert (some conflict) q = store_upsert (build_upsert_clause conflict q)

  target_name : Tree A → Option (Tree A) → QueryFields → QueryFields
  unfolding named_table
  target_name target none q = q
  target_name target (some written) q = record q {
    tables =
        q.tables
        ++ named_table (trimmed_text tokens written) (optional_text tokens (child colid target))
          ∷ [];
  }

  add_target : Option (Tree A) → QueryFields → QueryFields
  unfolding target_name
  add_target none q = q
  add_target (some target) q = target_name target (child qualified_name target) q

  add_columns : Tree A → QueryFields → QueryFields
  unfolding extract_insert_columns
  add_columns rest q = record q {
    insert_columns =
        q.insert_columns ++ extract_insert_columns tokens (child insert_column_list rest);
  }

module _ ⦃u : Unicode⦄ (tokens : TokenStream) where
  insert_select : Option Context → ParsedQuery → Result ParsedQuery
  unfolding populate_select
  insert_select none result = ok result
  insert_select (some stmt) result = populate_select tokens result stmt

  -- What `insert_rest` and the conflict clause add.
  insert_body : Context → Option Context → ParsedQuery → Result ParsedQuery
  unfolding add_columns add_upsert insert_select on_fields
  insert_body ctx none result = ok result
  insert_body ctx (some rest) result = insert_select (child selectstmt rest) (
      on_fields (λ q. add_upsert tokens (child opt_on_conflict ctx) (add_columns tokens rest q))
        result)

  -- `populateInsert` on a context that is not nil
  unfoldable pub populate_insert : ParsedQuery → Context → Result ParsedQuery
  unfolding insert_body add_with add_target add_returning on_fields
  populate_insert result ctx =
      insert_body ctx (child insert_rest ctx) (
        on_fields (add_target tokens (child insert_target ctx))
          (add_with tokens (child opt_with_clause ctx &> child with_clause) result))
      >>= λ done. ok (on_fields (add_returning tokens (child returning_clause ctx)) done)
