-- ===== src/Strings/Split.antt =====
-- `Split` and `Join` are inverse, on texts that hold no separator in the second direction.
use postgresparser.Prelude.{
  ℕ, ◌≡◌, ◌≢◌, refl, ◌∙◌, List, [], ◌∷◌, arith, Text, inl, inr, Bool-cases, ◌==◌, ==_iff,
}
use postgresparser.Strings.{cons_part, split, join}

module _ (sep : ℕ) where
  pub join-cons_part :
      (c : ℕ) (ps : List Text) → join (sep ∷ []) (cons_part c ps) ≡ c ∷ join (sep ∷ []) ps
  unfolding join cons_part
  join-cons_part c [] = refl
  join-cons_part c (p ∷ ps) = refl

  pub join-nil_part :
      (ps : List Text) → ps ≢ [] → join (sep ∷ []) ([] ∷ ps) ≡ sep ∷ join (sep ∷ []) ps
  unfolding join
  join-nil_part [] h = absurd (h refl)
  join-nil_part (p ∷ ps) h = refl

  pub cons_part-ne-nil : (c : ℕ) (ps : List Text) → cons_part c ps ≢ []
  unfolding cons_part
  cons_part-ne-nil c [] h = cc
  cons_part-ne-nil c (p ∷ ps) h = cc

  pub split-ne-nil : (s : Text) → split sep s ≢ []
  unfolding split
  split-ne-nil [] = ground arith
  split-ne-nil (c ∷ s) = ground (arith, cons_part-ne-nil c (split sep s))

  -- Joining what a split gives yields the text.
  pub join-split : (s : Text) → join (sep ∷ []) (split sep s) ≡ s
  unfolding split
  join-split [] = unfold join in refl
  join-split (c ∷ s) = elim (Bool-cases (c == sep)) [
    | inl hit ↦
        rw hit
          (join-nil_part (split sep s) (split-ne-nil s) ∙ rw ((==_iff c sep).0 hit, join-split s))
    | inr miss ↦ rw miss (join-cons_part c (split sep s) ∙ rw (join-split s))
  ]
