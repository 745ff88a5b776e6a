-- ===== src/Usage/Collectors/Laws.antt =====
-- The column references of an expression are those outside its subqueries.
use postgresparser.Prelude.{
  ℕ, suc, ◌≡◌, refl, true, false, Bool-cases, inl, inr, List, [], ◌∷◌, ◌++◌, append-nil, arith,
  ◌==◌, if◌then◌else◌,
}
use postgresparser.Syntax.{Tree, terminal, rule, is_rule}
use postgresparser.Syntax.Rules.{rule_eq, columnref}
use postgresparser.Usage.Collectors.{
  nothing_yet, collect, enter_parens, enter_columnref, column_refs,
}
use postgresparser.Usage.Collectors.Scope.{state, is_parens, outside, IsScoped, walk-outside}

pub suc_not_zero : (d : ℕ) → (suc d == 0) ≡ false
suc_not_zero d = ground arith

module _ {A : Type 0} where
  abbrev pub as_columnref : Tree A → List (Tree A)
  as_columnref t = if is_rule columnref t then t ∷ [] else []

  parens_no_columnref : (t : Tree A) → is_parens t ≡ true → is_rule columnref t ≡ false
  unfolding is_rule rule_eq
  parens_no_columnref (terminal t s) h = refl
  parens_no_columnref (rule r i j a cs) h = ground arith

  columnref_inside :
      (t : Tree A) (found : List (Tree A)) (d : ℕ)
      → is_parens t ≡ false
      → enter_columnref t (state found (suc d)) ≡ state found (suc d)
  unfolding enter_columnref enter_parens
  columnref_inside t found d p = elim (Bool-cases (is_rule columnref t)) [
    | inl c ↦ rw (c, suc_not_zero d) refl
    | inr c ↦ rw (c, p) refl
  ]

  columnref_opens :
      (t : Tree A) (found : List (Tree A)) (d : ℕ)
      → is_parens t ≡ true
      → enter_columnref t (state found d) ≡ state found (suc d)
  unfolding enter_columnref enter_parens
  columnref_opens t found d p = rw (parens_no_columnref t p, p) refl

  columnref_found :
      (t : Tree A) (found : List (Tree A))
      → is_parens t ≡ false
      → enter_columnref t (state found 0) ≡ state (found ++ as_columnref t) 0
  unfolding enter_columnref enter_parens collect
  columnref_found t found p = elim (Bool-cases (is_rule columnref t)) [
    | inl c ↦ rw c refl
    | inr c ↦ rw (c, p, append-nil) refl
  ]

  columnref-IsScoped : IsScoped enter_columnref as_columnref
  columnref-IsScoped = record {
    opens = columnref_opens;
    inside = columnref_inside;
    collects = columnref_found;
  }

  -- The walk that counts how many subqueries are open collects exactly the column references that
  -- stand in no subquery of the tree, in their order.
  pub column_refs-outside : (t : Tree A) → column_refs t ≡ outside as_columnref t
  unfolding column_refs nothing_yet
  column_refs-outside t = walk-outside enter_columnref as_columnref columnref-IsScoped t
