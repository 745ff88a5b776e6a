-- ===== src/Usage/Comparison.antt =====
-- helpers_comparison.go: the comparisons of an expression, with their operators.
pub mod Laws
pub mod Grown
use postgresparser.Prelude.{
  ℕ, Bool, true, false, not, ◌&&◌, ◌||◌, Option, none, some, List, [], ◌∷◌, ◌++◌, Text, codes,
  contains, dedup, is_empty, keep, text_eq, ◌==◌, if◌then◌else◌,
}
use postgresparser.Strings.{Unicode, to_upper}
use postgresparser.Names.{ColumnRef}
use postgresparser.Ir.{ColumnUsageType, ColumnUsage, QueryFields}
use postgresparser.Tree.{TokenStream}
use postgresparser.Syntax.{
  Tree, terminal, rule, get_children, get_text, is_rule, nth_child, tree_text,
}
use postgresparser.Syntax.Rules.{
  a_expr_compare, a_expr_like, a_expr_in, a_expr_between, a_expr_isnull, a_expr_is_not,
  a_expr_qual_op, qual_op, select_with_parens,
}
use postgresparser.Syntax.Walk.{walk}
use postgresparser.Usage.Collectors.{
  Collected, nothing_yet, enter_parens, exit_parens, column_refs, parse_col_ref,
}
use postgresparser.Usage.Record.{add_usages}

-- `comparisonInfo`
pub record ComparisonInfo : Type 0 where
  pub column : Text
  pub table_alias : Text
  pub expression : Text
  pub operator : Text
  pub context : Text

module _ ⦃u : Unicode⦄ {A : Type 0} where
  -- The text of a terminal in upper case; none of a rule context.
  upper_terminal : Tree A → Option Text
  upper_terminal (terminal t s) = some (to_upper s)
  upper_terminal (rule r i j a cs) = none

  upper_terminals : List (Tree A) → List (Option Text)
  unfolding upper_terminal
  upper_terminals [] = []
  upper_terminals (c ∷ cs) = upper_terminal c ∷ upper_terminals cs

is_word : Text → Option Text → Bool
is_word w none = false
is_word w (some s) = text_eq s w

-- `EnterA_expr_compare`: the last comparison sign among the children
compare_signs : List Text
compare_signs =
    codes "=" ∷ codes "<>" ∷ codes "!=" ∷ codes ">" ∷ codes ">=" ∷ codes "<" ∷ codes "<=" ∷ []

sign_of : Text → Option Text → Text
unfolding compare_signs
sign_of op none = op
sign_of op (some s) = if contains compare_signs s then s else op

compare_operator : Text → List (Option Text) → Text
unfolding sign_of
compare_operator op [] = op
compare_operator op (c ∷ cs) = compare_operator (sign_of op c) cs

-- `EnterA_expr_like`, `EnterA_expr_in` and `EnterA_expr_between`: the first of the words, behind
-- `NOT` or not
negated : Bool → Text → Text
negated has_not word = if has_not then codes "NOT " ++ word else word

word_operator : List Text → Bool → List (Option Text) → Text
unfolding negated is_word
word_operator words has_not [] = []
word_operator words has_not (none ∷ cs) = word_operator words has_not cs
word_operator words has_not (some s ∷ cs) =
    let after_not = word_operator words true cs in
    let rest = word_operator words has_not cs in
    if text_eq s (codes "NOT")
    then after_not
    else if contains words s
    then negated has_not s
    else rest

-- `IS` with `NULL` as the next child
is_null_in : List (Option Text) → Bool
unfolding is_word
is_null_in [] = false
is_null_in (c ∷ []) = false
is_null_in (c ∷ d ∷ cs) =
    (is_word (codes "IS") c && is_word (codes "NULL") d) || is_null_in (d ∷ cs)

-- `ISNULL` or `NOTNULL`, the first of them
shorthand_operator : List (Option Text) → Text
unfolding is_word
shorthand_operator [] = []
shorthand_operator (c ∷ cs) =
    let rest = shorthand_operator cs in
    if is_word (codes "ISNULL") c
    then codes "IS NULL"
    else if is_word (codes "NOTNULL") c
    then codes "IS NOT NULL"
    else rest

-- `EnterA_expr_is_not`: `IS`, `NOT`, and one of three words
truth_word : Option Text → Bool
unfolding is_word
truth_word s = is_word (codes "NULL") s || is_word (codes "TRUE") s || is_word (codes "FALSE") s

word_text : Option Text → Text
word_text none = []
word_text (some s) = s

is_not_operator : List (Option Text) → Text
unfolding is_word truth_word word_text
is_not_operator [] = []
is_not_operator (a ∷ []) = []
is_not_operator (a ∷ b ∷ []) = []
is_not_operator (a ∷ b ∷ c ∷ cs) =
    let rest = is_not_operator (b ∷ c ∷ cs) in
    if is_word (codes "IS") a && is_word (codes "NOT") b && truth_word c
    then codes "IS NOT " ++ word_text c
    else rest

module _ ⦃u : Unicode⦄ {A : Type 0} where
  -- An only child that is an `a_expr_is_not` with `IS NULL` among its children.
  only_is_null : List (Tree A) → Bool
  unfolding is_null_in upper_terminals
  only_is_null (c ∷ []) = is_rule a_expr_is_not c && is_null_in (upper_terminals (get_children c))
  only_is_null _ = false

  -- `EnterA_expr_isnull`
  isnull_operator : List (Tree A) → Text
  unfolding only_is_null shorthand_operator
  isnull_operator cs =
      if only_is_null cs then codes "IS" else shorthand_operator (upper_terminals cs)

  qual_text : TokenStream → Option (Tree A) → Text
  qual_text tokens none = []
  qual_text tokens (some op) = tree_text tokens op

  -- The operator that the listener's method for the rule of the context finds; empty where it finds
  -- none or has no such method.
  unfoldable pub comparison_operator : TokenStream → Tree A → Text
  unfolding compare_operator word_operator isnull_operator is_not_operator qual_text upper_terminals
  comparison_operator tokens t =
      let words = upper_terminals (get_children t) in
      if is_rule a_expr_compare t
      then compare_operator [] words
      else if is_rule a_expr_like t
      then word_operator (codes "LIKE" ∷ codes "ILIKE" ∷ []) false words
      else if is_rule a_expr_in t
      then word_operator (codes "IN" ∷ []) false words
      else if is_rule a_expr_between t
      then word_operator (codes "BETWEEN" ∷ []) false words
      else if is_rule a_expr_isnull t
      then isnull_operator (get_children t)
      else if is_rule a_expr_is_not t
      then is_not_operator words
      else if is_rule a_expr_qual_op t
      then qual_text tokens (nth_child qual_op 0 t)
      else []

unfoldable pub ref_key : ColumnRef → Text
ref_key ref = ref.table_alias ++ codes "." ++ ref.name

module _ {A : Type 0} where
  named_refs : List (Tree A) → List ColumnRef
  named_refs [] = []
  named_refs (t ∷ ts) =
      let rest = named_refs ts in
      let ref = parse_col_ref t in if is_empty ref.name then rest else ref ∷ rest

  -- `extractColumnsFromContext`
  unfoldable pub columns_of : Tree A → List ColumnRef
  unfolding named_refs
  columns_of ctx = dedup ref_key [] (named_refs (column_refs ctx))

comparison_of : Text → Text → ColumnRef → ComparisonInfo
comparison_of op context col = record {
  column = col.name;
  table_alias = col.table_alias;
  expression = col.expr;
  operator = op;
  context = context;
}

comparisons_of : Text → Text → List ColumnRef → List ComparisonInfo
unfolding comparison_of
comparisons_of op context [] = []
comparisons_of op context (col ∷ cols) =
    comparison_of op context col ∷ comparisons_of op context cols

unfoldable pub comparison_key : ComparisonInfo → Text
comparison_key c =
    c.table_alias ++ codes "|" ++ c.column ++ codes "|" ++ c.operator ++ codes "|" ++ c.context

pub is_complete : ComparisonInfo → Bool
is_complete c = not (is_empty c.column) && not (is_empty c.operator)

unfoldable pub comparison_usage : ColumnUsageType → ComparisonInfo → ColumnUsage
comparison_usage role c = record {
  table_alias = c.table_alias;
  column = c.column;
  expression = c.expression;
  usage_type = role;
  context = c.context;
  operator = c.operator;
  side = [];
  functions = [];
}

comparison_usages : ColumnUsageType → List ComparisonInfo → List ColumnUsage
unfolding comparison_usage
comparison_usages role [] = []
comparison_usages role (c ∷ cs) = comparison_usage role c ∷ comparison_usages role cs

module _ ⦃u : Unicode⦄ {A : Type 0} (tokens : TokenStream) where
  -- The comparisons that one context adds.
  pub comparisons_at : Tree A → List ComparisonInfo
  unfolding comparisons_of
  comparisons_at t =
      let op = comparison_operator tokens t in
      if is_empty op then [] else comparisons_of op (tree_text tokens t) (columns_of t)

  -- `comprehensiveComparisonCollector`
  unfoldable pub enter_comparison : Tree A → Collected ComparisonInfo → Collected ComparisonInfo
  unfolding enter_parens
  enter_comparison t st =
      if is_rule select_with_parens t
      then enter_parens t st
      else if st.depth == 0
      then record st { items = st.items ++ comparisons_at t }
      else st

  unfoldable pub comparisons : Tree A → List ComparisonInfo
  unfolding enter_comparison exit_parens nothing_yet
  comparisons ctx = (walk enter_comparison exit_parens ctx nothing_yet).items

  pub recorded : Tree A → List ComparisonInfo
  unfolding comparisons is_complete
  recorded ctx = dedup comparison_key [] (keep is_complete (comparisons ctx))

  -- `findAndRecordComparisons` on a context that is not nil
  unfoldable pub find_and_record_comparisons : Tree A → ColumnUsageType → QueryFields → QueryFields
  unfolding recorded comparison_usages
  find_and_record_comparisons ctx role result =
      add_usages (comparison_usages role (recorded ctx)) result
