-- ===== src/Select/Projection/Laws.antt =====
-- A projection adds usages behind those that are there.
use postgresparser.Prelude.{
  refl, not, ◌&&◌, Bool-cases, inl, inr, Option, none, some, List, [], ◌∷◌, Text, is_empty, text_eq,
}
use postgresparser.Strings.{Unicode}
use postgresparser.Ir.{projection, QueryFields, ParsedQuery}
use postgresparser.Tree.{TokenStream}
use postgresparser.Query.{on_fields}
use postgresparser.Query.Grown.{
  Grown, GrownFields, fields_refl, fields_trans, Grown-refl, Grown-trans, unchanged-Grown,
  on_fields-Grown,
}
use postgresparser.Syntax.{terminal, rule, child, get_children, is_rule, optional_text}
use postgresparser.Syntax.Rules.{
  select_with_parens, target_label, target_star, target_other, a_expr,
}
use postgresparser.Usage.Record.{find_in_optional}
use postgresparser.Usage.Record.Laws.{find_in_optional-Grown, extract_window_functions-Grown}
use postgresparser.Select.Meaning.{Context, value_of}
use postgresparser.Select.Meaning.Sound.{
  Sound, SoundOption, Growing, child-Sound, expression_subqueries-Grown,
}
use postgresparser.Select.Projection.{
  optional_subqueries, target_list_of, add_column, add_derived, alias_text, labelled, unlabelled,
  target, targets, project_nested, project_by, extract_projection,
}

pub optional_subqueries-Grown :
    (expr : Option Context) (q : ParsedQuery) → Grown q (optional_subqueries expr q)
unfolding optional_subqueries
optional_subqueries-Grown none q = Grown-refl q
optional_subqueries-Grown (some expr) q = expression_subqueries-Grown expr q

add_column-Grown : (expr alias : Text) (k : QueryFields) → GrownFields k (add_column expr alias k)
unfolding add_column
add_column-Grown expr alias k = unchanged-Grown k _ refl refl refl refl

add_derived-Grown : (alias expr : Text) (k : QueryFields) → GrownFields k (add_derived alias expr k)
unfolding add_derived
add_derived-Grown alias expr k =
    elim (Bool-cases (not (is_empty alias) && not (is_empty expr) && not (text_eq alias expr))) [
      | inl h ↦ rw h (unchanged-Grown k _ refl refl refl refl)
      | inr h ↦ rw h (fields_refl k)
    ]

module _ ⦃u : Unicode⦄ (tokens : TokenStream) where
  labelled-Grown : (col : Context) (q : ParsedQuery) → Grown q (labelled tokens col q)
  unfolding labelled
  labelled-Grown col q =
      Grown-trans q (on_fields (find_in_optional (child a_expr col) projection) q) _
        (on_fields-Grown _ q (find_in_optional-Grown (child a_expr col) projection))
        (Grown-trans _ (optional_subqueries (child a_expr col) _) _
          (optional_subqueries-Grown (child a_expr col) _)
          (on_fields-Grown _ _ (λ k.
            fields_trans k
              (add_column (optional_text tokens (child a_expr col)) (alias_text tokens col) k) _
              (add_column-Grown _ _ k) (add_derived-Grown _ _ _))))

  unlabelled-Grown : (col : Context) (q : ParsedQuery) → Grown q (unlabelled tokens col q)
  unfolding unlabelled
  unlabelled-Grown col q = on_fields-Grown _ q (add_column-Grown _ _)

  target-Grown : (col : Context) (q : ParsedQuery) → Grown q (target tokens col q)
  unfolding target
  target-Grown col q = elim (Bool-cases (is_rule target_label col)) [
    | inl h ↦ rw h (labelled-Grown col q)
    | inr h ↦ elim (Bool-cases (is_rule target_star col)) [
      | inl k ↦ rw (h, k) (unlabelled-Grown col q)
      | inr k ↦ elim (Bool-cases (is_rule target_other col)) [
        | inl l ↦ rw (h, k, l) (unlabelled-Grown col q)
        | inr l ↦ rw (h, k, l) (Grown-refl q)
      ]
    ]
  ]

  targets-Grown : (cols : List Context) (q : ParsedQuery) → Grown q (targets tokens cols q)
  unfolding targets
  targets-Grown [] q = Grown-refl q
  targets-Grown (col ∷ cols) q =
      Grown-trans q (target tokens col q) _ (target-Grown col q) (targets-Grown cols _)

  project_value-Grown :
      (swp : Context) (q : ParsedQuery) → Sound swp → Grown q ((value_of swp).project q)
  unfolding Sound value_of Growing
  project_value-Grown (terminal t s) q h = Grown-refl q
  project_value-Grown (rule r i j a cs) q h = h.0 q

  project_nested-Grown :
      (swp : Option Context) (q : ParsedQuery)
      → SoundOption swp
      → Grown q (project_nested tokens swp q)
  unfolding project_nested SoundOption
  project_nested-Grown none q h = Grown-refl q
  project_nested-Grown (some swp) q h = project_value-Grown swp q h

  project_by-Grown :
      (simple : Context) (list : Option Context) (q : ParsedQuery)
      → Sound simple
      → Grown q (project_by tokens simple list q)
  unfolding project_by
  project_by-Grown simple none q h =
      project_nested-Grown (child select_with_parens simple) q
        (child-Sound select_with_parens simple h)
  project_by-Grown simple (some list) q h =
      Grown-trans q (targets tokens (get_children list) q) _ (targets-Grown (get_children list) q)
        (on_fields-Grown _ _ (extract_window_functions-Grown list))

  pub extract_projection-Grown :
      (simple : Context) (q : ParsedQuery)
      → Sound simple
      → Grown q (extract_projection tokens simple q)
  unfolding extract_projection
  extract_projection-Grown simple q h = project_by-Grown simple (target_list_of simple) q h
