-- ===== src/Usage/Comparison/Laws.antt =====
-- Which comparisons are recorded.
use postgresparser.Prelude.{
  ◌≡◌, refl, true, [], map, All, Fresh, dedup-Fresh, dedup-All, keep, keep-All,
}
use postgresparser.Strings.{Unicode}
use postgresparser.Tree.{TokenStream}
use postgresparser.Syntax.{Tree}
use postgresparser.Usage.Collectors.{nothing_yet, enter_parens}
use postgresparser.Usage.Collectors.Laws.{suc_not_zero}
use postgresparser.Usage.Collectors.Scope.{outside, IsScoped, walk-outside}
use postgresparser.Usage.Comparison.{
  comparison_key, is_complete, comparisons_at, enter_comparison, comparisons, recorded,
}

module _ ⦃u : Unicode⦄ {A : Type 0} (tokens : TokenStream) where
  comparison-IsScoped : IsScoped {A = A} (enter_comparison tokens) (comparisons_at tokens)
  unfolding enter_comparison enter_parens
  comparison-IsScoped = record {
    opens = λ t found d p. rw p refl;
    inside = λ t found d p. rw (p, suc_not_zero d) refl;
    collects = λ t found p. rw p refl;
  }

  pub comparisons-outside :
      (ctx : Tree A) → comparisons tokens ctx ≡ outside (comparisons_at tokens) ctx
  unfolding comparisons nothing_yet
  comparisons-outside ctx =
      walk-outside (enter_comparison tokens) (comparisons_at tokens) comparison-IsScoped ctx

  -- The comparisons that are recorded from an expression are pairwise different in alias, column,
  -- operator and text together, and each has a column and an operator.
  pub recorded-Fresh :
      (ctx : Tree A)
      → Fresh [] (map comparison_key (recorded tokens ctx))
        × All (λ c. is_complete c ≡ true) (recorded tokens ctx)
  unfolding recorded
  recorded-Fresh ctx = (
    dedup-Fresh comparison_key [] (keep is_complete (comparisons tokens ctx)),
    dedup-All comparison_key (λ c. is_complete c ≡ true) []
        (keep is_complete (comparisons tokens ctx)) (keep-All is_complete (comparisons tokens ctx)),
  )
