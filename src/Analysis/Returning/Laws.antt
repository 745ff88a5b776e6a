-- ===== src/Analysis/Returning/Laws.antt =====
-- The parts of a text between commas, joined by commas, are the text.
use postgresparser.Prelude.{
  ℕ, ◌≡◌, ◌≢◌, refl, ◌∙◌, ap, Bool, true, false, not, ◌&&◌, List, [], ◌∷◌, arith, Text, inl, inr,
  Bool-cases, ◌==◌, ==_iff, is_empty, All, All-append, keep-All,
}
use postgresparser.Strings.{Unicode, join}
use postgresparser.Strings.Split.{join-cons_part, join-nil_part, cons_part-ne-nil}
use postgresparser.Analysis.Returning.{
  quote_after, depth_after, split_commas_from, split_commas, returning_items, normalize_returning,
}

split_commas_from-ne-nil : (d : ℕ) (q : Bool) (s : Text) → split_commas_from d q s ≢ []
unfolding split_commas_from
split_commas_from-ne-nil d q [] = ground arith
split_commas_from-ne-nil d q (c ∷ s) = elim (Bool-cases (c == b',' && not q && d == 0)) [
  | inl hit ↦ rw hit (λ h. cc)
  | inr miss ↦ rw miss (cons_part-ne-nil b',' c _)
]

both_left : (a b : Bool) → (a && b) ≡ true → a ≡ true
both_left a b h = ground arith

join-split_commas_from :
    (d : ℕ) (q : Bool) (s : Text) → join (b',' ∷ []) (split_commas_from d q s) ≡ s
unfolding split_commas_from
join-split_commas_from d q [] = unfold join in refl
join-split_commas_from d q (c ∷ s) = elim (Bool-cases (c == b',' && not q && d == 0)) [
  | inl hit ↦ rw hit (
      join-nil_part b',' _ (split_commas_from-ne-nil (depth_after c q d) (quote_after c q) s)
      ∙ rw ((==_iff c b',').0 (both_left _ _ (both_left _ _ hit)), join-split_commas_from _ _ s)
          refl)
  | inr miss ↦ rw miss (
      join-cons_part b',' c _
      ∙ ap (λ l. c ∷ l) (join-split_commas_from (depth_after c q d) (quote_after c q) s))
]

-- The parts that a text is split into at its commas outside parentheses and quotes, joined by
-- commas, are the text again.
pub join-split_commas : (s : Text) → join (b',' ∷ []) (split_commas s) ≡ s
unfolding split_commas
join-split_commas s = join-split_commas_from 0 false s

module _ ⦃u : Unicode⦄ where
  pub normalize_returning-All :
      (items : List Text) → All (λ part. not (is_empty part) ≡ true) (normalize_returning items)
  unfolding normalize_returning returning_items
  normalize_returning-All [] = tt
  normalize_returning-All (item ∷ items) =
      All-append _ (returning_items item) (normalize_returning items)
        (keep-All (λ part. not (is_empty part)) _) (normalize_returning-All items)
