-- ===== src/Dml/Merge/Kinds.antt =====
-- The actions of a MERGE are its WHEN clauses, in order.
use postgresparser.Prelude.{
  ◌≡◌, refl, sym, ap, ◌∙◌, Bool-cases, inl, inr, List, [], ◌∷◌, ◌++◌, append_assoc, append-nil, map,
  Text, codes, if◌then◌else◌,
}
use postgresparser.Strings.{Unicode}
use postgresparser.Ir.{MergeAction, TableRef, ParsedQuery, parsed, Merge, merge, no_merge}
use postgresparser.Tree.{TokenStream}
use postgresparser.Query.{set_merge}
use postgresparser.Syntax.{Tree, get_children, is_rule}
use postgresparser.Syntax.Rules.{merge_insert_clause, merge_update_clause, merge_delete_clause}
use postgresparser.Select.Meaning.{Context}
use postgresparser.Dml.Merge.{
  Actions, empty_action, add_action, add_insert_action, add_update_action, add_delete_action,
  add_child, add_children, Source, finish, with_source, populate_merge,
}

-- The type of the action that a child is, by its rule.
clause_types : {A : Type 0} → Tree A → List Text
clause_types c =
    if is_rule merge_insert_clause c
    then codes "INSERT" ∷ []
    else if is_rule merge_update_clause c
    then codes "UPDATE" ∷ []
    else if is_rule merge_delete_clause c
    then codes "DELETE" ∷ []
    else []

pub all_clause_types : {A : Type 0} → List (Tree A) → List Text
all_clause_types [] = []
all_clause_types (c ∷ cs) = clause_types c ++ all_clause_types cs

types : List MergeAction → List Text
types acts = map MergeAction.action_type acts

types_append :
    (acts : List MergeAction) (a : MergeAction)
    → types (acts ++ a ∷ []) ≡ types acts ++ a.action_type ∷ []
unfolding types
types_append [] a = refl
types_append (b ∷ acts) a = ap (λ l. b.action_type ∷ l) (types_append acts a)

module _ ⦃u : Unicode⦄ {A : Type 0} (tokens : TokenStream) where
  child_types :
      (c : Tree A) (st : Actions)
      → types (add_child tokens c st).actions ≡ types st.actions ++ clause_types c
  unfolding add_child clause_types add_insert_action add_update_action add_delete_action add_action
      empty_action
  child_types c st = elim (Bool-cases (is_rule merge_insert_clause c)) [
    | inl h ↦ rw h (types_append st.actions _)
    | inr h ↦ elim (Bool-cases (is_rule merge_update_clause c)) [
      | inl k ↦ rw (h, k) (types_append st.actions _)
      | inr k ↦ elim (Bool-cases (is_rule merge_delete_clause c)) [
        | inl l ↦ rw (h, k, l) (types_append st.actions _)
        | inr l ↦ rw (h, k, l) (sym (append-nil _))
      ]
    ]
  ]

  children_types :
      (cs : List (Tree A)) (st : Actions)
      → types (add_children tokens cs st).actions ≡ types st.actions ++ all_clause_types cs
  unfolding add_children all_clause_types
  children_types [] st = sym (append-nil _)
  children_types (c ∷ cs) st =
      children_types cs (add_child tokens c st)
      ∙ ap (λ l. l ++ all_clause_types cs) (child_types c st)
      ∙ append_assoc (types st.actions) (clause_types c) (all_clause_types cs)

-- The types of the actions in the MERGE clause of a query.
merge_action_types : Merge → List Text
merge_action_types no_merge = []
merge_action_types (merge m alias q) = types m.actions

pub action_types : ParsedQuery → List Text
action_types (parsed q subs ctes m) = merge_action_types m

action_types-set_merge :
    (m : Merge) (q : ParsedQuery) → action_types (set_merge m q) ≡ merge_action_types m
unfolding action_types set_merge
action_types-set_merge m (parsed q subs ctes old) = refl

module _ ⦃u : Unicode⦄ (tokens : TokenStream) where
  with_source_types :
      (target : TableRef) (ctx : Context) (source : Source)
      → action_types (with_source tokens target ctx source) ≡ all_clause_types (get_children ctx)
  unfolding with_source finish merge_action_types all_clause_types types
  with_source_types target ctx source =
      action_types-set_merge _ _ ∙ children_types tokens (get_children ctx) _

  -- The actions of the MERGE clause that is built are its WHEN clauses, one each and in their order:
  -- INSERT, UPDATE or DELETE by the rule of the clause.
  pub populate_merge_actions :
      (q : ParsedQuery) (ctx : Context)
      → action_types (populate_merge tokens q ctx) ≡ all_clause_types (get_children ctx)
  unfolding populate_merge
  populate_merge_actions q ctx = with_source_types _ ctx _
