-- ===== src/Select/Projection.antt =====
-- `extractProjection` of select.go.
pub mod Laws
use postgresparser.Prelude.{
  Bool, true, false, not, ◌&&◌, Option, none, some, List, [], ◌∷◌, ◌++◌, Text, is_empty, insert,
  text_eq, if◌then◌else◌,
}
use postgresparser.Strings.{Unicode}
use postgresparser.Ir.{SelectColumn, projection, QueryFields, ParsedQuery}
use postgresparser.Tree.{TokenStream}
use postgresparser.Query.{on_fields}
use postgresparser.Syntax.{Tree, child, get_children, is_rule, trimmed_text, optional_text, ◌&>◌}
use postgresparser.Syntax.Rules.{
  select_with_parens, opt_target_list, target_list, target_label, target_star, target_other,
  col_label, bare_col_label, a_expr,
}
use postgresparser.Usage.Record.{find_in_optional, extract_window_functions}
use postgresparser.Select.Meaning.{Context, value_of, expression_subqueries}

unfoldable pub optional_subqueries : Option Context → ParsedQuery → ParsedQuery
unfolding expression_subqueries
optional_subqueries none result = result
optional_subqueries (some expr) result = expression_subqueries expr result

first_of : {A : Type 0} → Option A → Option A → Option A
first_of (some a) other = some a
first_of none other = other

module _ {A : Type 0} where
  -- `Target_list()`, or that of `Target_list_()`
  unfoldable pub target_list_of : Tree A → Option (Tree A)
  unfolding child first_of
  target_list_of simple =
      first_of (child target_list simple) (child opt_target_list simple &> child target_list)

  label_text : TokenStream → Tree A → Option (Tree A) → Text
  unfolding optional_text
  label_text tokens col (some label) = optional_text tokens (some label)
  label_text tokens col none = optional_text tokens (child bare_col_label col)

  alias_text : TokenStream → Tree A → Text
  unfolding label_text
  alias_text tokens col = label_text tokens col (child col_label col)

unfoldable pub add_column : Text → Text → QueryFields → QueryFields
add_column expr alias q = record q {
  columns = q.columns ++ record { expression = expr; alias = alias } ∷ [];
}

unfoldable pub add_derived : Text → Text → QueryFields → QueryFields
unfolding insert
add_derived alias expr q =
    if not (is_empty alias) && not (is_empty expr) && not (text_eq alias expr)
    then record q { derived_columns = insert alias expr q.derived_columns }
    else q

module _ ⦃u : Unicode⦄ (tokens : TokenStream) where
  -- `Target_labelContext`
  labelled : Context → ParsedQuery → ParsedQuery
  unfolding find_in_optional optional_subqueries add_column add_derived alias_text
  labelled col result =
      let expr = child a_expr col in
      let text = optional_text tokens expr in
      let alias = alias_text tokens col in
      on_fields (λ q. add_derived alias text (add_column text alias q))
        (optional_subqueries expr (on_fields (find_in_optional expr projection) result))

  -- `target_star`, or an alternative that the switch does not name
  unlabelled : Context → ParsedQuery → ParsedQuery
  unfolding add_column
  unlabelled col result = on_fields (add_column (trimmed_text tokens col) []) result

  target : Context → ParsedQuery → ParsedQuery
  unfolding labelled unlabelled
  target col result =
      if is_rule target_label col
      then labelled col result
      else if is_rule target_star col
      then unlabelled col result
      else if is_rule target_other col
      then unlabelled col result
      else result

  targets : List Context → ParsedQuery → ParsedQuery
  unfolding target
  targets [] result = result
  targets (col ∷ cols) result = targets cols (target col result)

  project_nested : Option Context → ParsedQuery → ParsedQuery
  unfolding value_of
  project_nested none result = result
  project_nested (some swp) result = (value_of swp).project result

  project_by : Context → Option Context → ParsedQuery → ParsedQuery
  unfolding project_nested targets extract_window_functions
  project_by simple none result = project_nested (child select_with_parens simple) result
  project_by simple (some list) result =
      on_fields (extract_window_functions list) (targets (get_children list) result)

  -- `extractProjection`
  unfoldable pub extract_projection : Context → ParsedQuery → ParsedQuery
  unfolding project_by target_list_of
  extract_projection simple result = project_by simple (target_list_of simple) result
