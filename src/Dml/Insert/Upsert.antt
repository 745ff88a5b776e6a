-- ===== src/Dml/Insert/Upsert.antt =====
-- The action of ON CONFLICT, by the tokens of its clause.
use postgresparser.Prelude.{
  ◌≡◌, refl, Bool, true, false, not, ◌&&◌, arith, Bool-cases, inl, inr, ◌⊎◌, Option, none, some, [],
  codes,
}
use postgresparser.Strings.{Unicode}
use postgresparser.Ir.{UpsertClause, QueryFields}
use postgresparser.Tree.{TokenStream}
use postgresparser.Syntax.{Tree, child, has_token}
use postgresparser.Syntax.Rules.{nothing, update, opt_conf_expr, index_params}
use postgresparser.Dml.Insert.{
  Built, conflict_params, conflict_target, action_update, conflict_action, build_upsert_clause,
}

-- UPDATE stands among the tokens of the clause, and NOTHING does not.
abbrev pub sets_rows : {A : Type 0} → Tree A → Bool
sets_rows conflict = has_token update conflict && not (has_token nothing conflict)

-- The action by the tokens: `DO UPDATE`, or `DO NOTHING` without anything to set.
pub IsActionOf : {A : Type 0} → Tree A → UpsertClause → Type 0
IsActionOf conflict c =
    ((sets_rows conflict ≡ true) × (c.action ≡ codes "DO UPDATE"))
    ⊎ ((sets_rows conflict ≡ false)
        × (c.action ≡ codes "DO NOTHING")
        × (c.set_clauses ≡ [])
        × (c.action_where ≡ []))

module _ ⦃u : Unicode⦄ {A : Type 0} (tokens : TokenStream) where
  params_nothing_set :
      (params : Option (Tree A)) (b : Built)
      → ((conflict_params tokens params b).clause.set_clauses ≡ b.clause.set_clauses)
        × ((conflict_params tokens params b).clause.action_where ≡ b.clause.action_where)
  unfolding conflict_params
  params_nothing_set none b = (refl, refl)
  params_nothing_set (some params) b = (refl, refl)

  target_nothing_set :
      (expr : Option (Tree A)) (b : Built)
      → ((conflict_target tokens expr b).clause.set_clauses ≡ b.clause.set_clauses)
        × ((conflict_target tokens expr b).clause.action_where ≡ b.clause.action_where)
  unfolding conflict_target
  target_nothing_set none b = (refl, refl)
  target_nothing_set (some expr) b = params_nothing_set (child index_params expr) b

  conflict_action-IsActionOf :
      (conflict : Tree A) (b : Built)
      → b.clause.set_clauses ≡ []
      → b.clause.action_where ≡ []
      → IsActionOf conflict (conflict_action tokens conflict b).clause
  unfolding conflict_action action_update IsActionOf
  conflict_action-IsActionOf conflict b hs hw = elim (Bool-cases (has_token nothing conflict)) [
    | inl h ↦ rw h (inr (ground arith, refl, hs, hw))
    | inr h ↦ elim (Bool-cases (has_token update conflict)) [
      | inl k ↦ rw (h, k) (inl (refl, refl))
      | inr k ↦ rw (h, k) (inr (refl, refl, hs, hw))
    ]
  ]

  -- The action of an ON CONFLICT clause is DO UPDATE where UPDATE stands among its tokens and
  -- NOTHING does not, and in every other case it is DO NOTHING, without any SET clause and without a
  -- predicate of the action.
  pub build_upsert_clause-IsActionOf :
      (conflict : Tree A) (q : QueryFields)
      → IsActionOf conflict (build_upsert_clause tokens conflict q).clause
  unfolding build_upsert_clause
  build_upsert_clause-IsActionOf conflict q =
      let kept = target_nothing_set (child opt_conf_expr conflict) _ in
      conflict_action-IsActionOf conflict _ (kept.0) (kept.1)
