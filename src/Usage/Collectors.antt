-- ===== src/Usage/Collectors.antt =====
-- The listeners of helpers.go, run over a tree, and `parseColRefFromContext`.
pub mod Scope
pub mod Laws
use postgresparser.Prelude.{
  ℕ, zero, suc, ◌-◌, Bool, true, false, Option, none, some, List, [], ◌∷◌, ◌++◌, Text, codes,
  is_empty, ◌==◌, if◌then◌else◌,
}
use postgresparser.Strings.{Unicode, to_upper, trim_space}
use postgresparser.Names.{ColumnRef, column_ref_from_parts}
use postgresparser.Syntax.{Tree, is_rule, child, children, has_token, get_text}
use postgresparser.Syntax.Rules.{
  select_with_parens, columnref, indirection, indirection_el, attr_name, func_application,
  func_name, over_clause, colid, star,
}
use postgresparser.Syntax.Walk.{walk}

-- What a collector has found, and how many subqueries are open.
pub record Collected (B : Type 0) : Type 0 where
  pub items : List B
  pub depth : ℕ

unfoldable pub nothing_yet : {B : Type 0} → Collected B
nothing_yet = record { items = []; depth = 0 }

unfoldable pub collect : {B : Type 0} → B → Collected B → Collected B
collect x st = record st { items = st.items ++ x ∷ [] }

module _ {A B : Type 0} where
  -- `EnterSelect_with_parens` and `ExitSelect_with_parens` of `columnRefCollector`
  unfoldable pub enter_parens : Tree A → Collected B → Collected B
  enter_parens t st =
      if is_rule select_with_parens t then record st { depth = suc st.depth } else st

  unfoldable pub exit_parens : Tree A → Collected B → Collected B
  exit_parens t st = if is_rule select_with_parens t then record st { depth = st.depth - 1 } else st

module _ {A : Type 0} where
  -- `columnRefCollector`
  unfoldable pub enter_columnref : Tree A → Collected (Tree A) → Collected (Tree A)
  unfolding enter_parens collect
  enter_columnref t st =
      if is_rule columnref t then if st.depth == 0 then collect t st else st else enter_parens t st

  unfoldable pub column_refs : Tree A → List (Tree A)
  unfolding enter_columnref exit_parens nothing_yet
  column_refs t = (walk enter_columnref exit_parens t nothing_yet).items

  -- `expressionSubqueryCollector`
  unfoldable pub enter_subquery : Tree A → Collected (Tree A) → Collected (Tree A)
  unfolding enter_parens collect
  enter_subquery t st =
      if is_rule select_with_parens t
      then enter_parens t (if st.depth == 0 then collect t st else st)
      else st

  unfoldable pub direct_subqueries : Tree A → List (Tree A)
  unfolding enter_subquery exit_parens nothing_yet
  direct_subqueries t = (walk enter_subquery exit_parens t nothing_yet).items

  no_exit : {B : Type 0} → Tree A → List B → List B
  no_exit t found = found

  -- `windowClauseCollector`, which does not look at the depth
  enter_over : Tree A → List (Tree A) → List (Tree A)
  enter_over t found = if is_rule over_clause t then found ++ t ∷ [] else found

  unfoldable pub over_clauses : Tree A → List (Tree A)
  unfolding enter_over no_exit
  over_clauses t = walk enter_over no_exit t []

  -- the parts of a column reference: the first name, then attributes and stars
  colid_part : Option (Tree A) → List Text
  colid_part none = []
  colid_part (some t) = trim_space (get_text t) ∷ []

  indirection_part : Tree A → Option (Tree A) → List Text
  indirection_part el (some name) = trim_space (get_text name) ∷ []
  indirection_part el none = if has_token star el then codes "*" ∷ [] else []

  indirection_parts : List (Tree A) → List Text
  unfolding indirection_part
  indirection_parts [] = []
  indirection_parts (el ∷ els) = indirection_part el (child attr_name el) ++ indirection_parts els

  parts_behind : Option (Tree A) → List Text
  unfolding indirection_parts
  parts_behind none = []
  parts_behind (some ind) = indirection_parts (children indirection_el ind)

  -- `parseColRefFromContext`
  unfoldable pub parse_col_ref : Tree A → ColumnRef
  unfolding colid_part parts_behind
  parse_col_ref ctx =
      let ref =
        column_ref_from_parts
          (colid_part (child colid ctx) ++ parts_behind (child indirection ctx)) in
      record ref {
        name = if is_empty ref.name then trim_space (get_text ctx) else ref.name;
        expr = get_text ctx;
      }

module _ ⦃u : Unicode⦄ {A : Type 0} where
  called : Option (Tree A) → List Text
  called none = []
  called (some name) = to_upper (get_text name) ∷ []

  -- `functionCallCollector`
  enter_call : Tree A → List Text → List Text
  unfolding called
  enter_call t found =
      if is_rule func_application t then found ++ called (child func_name t) else found

  unfoldable pub function_calls : Tree A → List Text
  unfolding enter_call no_exit
  function_calls t = walk enter_call no_exit t []
