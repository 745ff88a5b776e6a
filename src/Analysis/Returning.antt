-- ===== src/Analysis/Returning.antt =====
-- `normalizeReturning` and `splitCommasRespectingParens` of analysis/analysis.go.
pub mod Laws
use postgresparser.Prelude.{
  ℕ, zero, suc, ◌-◌, Bool, true, false, not, ◌&&◌, List, [], ◌∷◌, ◌++◌, Text, codes, drop, is_empty,
  keep, map, ◌==◌, if◌then◌else◌,
}
use postgresparser.Strings.{Unicode, to_upper, trim_space, has_prefix, cons_part}

-- `depth` and `inQuote` behind a character.
unfoldable pub quote_after : ℕ → Bool → Bool
quote_after c in_quote = if c == 39 then not in_quote else in_quote

unfoldable pub depth_after : ℕ → Bool → ℕ → ℕ
depth_after c in_quote depth =
    if in_quote
    then depth
    else if c == b'('
    then suc depth
    else if c == b')'
    then depth - 1
    else depth

-- The parts of the rest, the first of which is the part at hand.
unfoldable pub split_commas_from : ℕ → Bool → Text → List Text
unfolding quote_after depth_after cons_part
split_commas_from depth in_quote [] = [] ∷ []
split_commas_from depth in_quote (c ∷ s) =
    let parts = split_commas_from (depth_after c in_quote depth) (quote_after c in_quote) s in
    if c == b',' && not in_quote && depth == 0 then [] ∷ parts else cons_part c parts

-- `splitCommasRespectingParens`
unfoldable pub split_commas : Text → List Text
unfolding split_commas_from
split_commas s = split_commas_from 0 false s

module _ ⦃u : Unicode⦄ where
  unfoldable pub without_keyword : Text → Text
  without_keyword s =
      if has_prefix (codes "RETURNING ") (to_upper s) then trim_space (drop 10 s) else s

  unfoldable pub returning_items : Text → List Text
  unfolding split_commas without_keyword
  returning_items item =
      keep (λ part. not (is_empty part))
        (map trim_space (split_commas (without_keyword (trim_space item))))

  -- `normalizeReturning`
  unfoldable pub normalize_returning : List Text → List Text
  unfolding returning_items
  normalize_returning [] = []
  normalize_returning (item ∷ items) = returning_items item ++ normalize_returning items
