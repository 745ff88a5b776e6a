-- ===== src/Ddl/ColumnName/Laws.antt =====
-- Which column names are the same column.
use postgresparser.Prelude.{ℕ, ◌≡◌, ◌≢◌, refl, ap, ◌∙◌, [], ◌∷◌, arith, Text, length-append, ◌==◌}
use postgresparser.Strings.{Unicode, trim_char, trim_space, has_prefix, to_lower}
use postgresparser.Strings.Trim.{
  IsTrimmed, StartsOutside, EndsOutside, trim_space_trimmed, trim_left_outside, trim_right_outside,
}
use postgresparser.Strings.Quote.{
  Lacks, quote, double_char, undouble_char-double_char, ends_in-append, drop_end-append,
}
use postgresparser.Names.{trim_quotes}
use postgresparser.Names.Print.{print, quoted, print-IsTrimmed}
use postgresparser.Ddl.ColumnName.{inner, normalize_trimmed, normalize_column_name}

Lacks-StartsOutside : (s : Text) → Lacks b'"' s → StartsOutside (λ c. c == b'"') s
Lacks-StartsOutside [] h = tt
Lacks-StartsOutside (c ∷ s) h = ground arith

Lacks-EndsOutside : (s : Text) → Lacks b'"' s → EndsOutside (λ c. c == b'"') s
Lacks-EndsOutside [] h = tt
Lacks-EndsOutside (c ∷ []) h = ground arith
Lacks-EndsOutside (c ∷ d ∷ s) h = Lacks-EndsOutside (d ∷ s) h.1

module _ ⦃u : Unicode⦄ where
  normalize_column_name-trim_space :
      (s : Text) → normalize_column_name s ≡ normalize_trimmed (trim_space s)
  unfolding normalize_column_name
  normalize_column_name-trim_space s = refl

  normalize_trimmed-quote : (s : Text) → normalize_trimmed (quote b'"' s) ≡ s
  unfolding normalize_trimmed inner has_prefix quote
  normalize_trimmed-quote s = rw (drop_end-append b'"' (double_char b'"' s)) (
      ground (
        arith,
        ends_in-append b'"' b'"' (b'"' ∷ double_char b'"' s),
        length-append (double_char b'"' s) (b'"' ∷ []),
        undouble_char-double_char b'"' s,
      ))

  -- A quoted column name is normalised to its content, case kept and doubled quotes single.
  pub normalize-quote : (s : Text) → normalize_column_name (quote b'"' s) ≡ s
  normalize-quote s =
      normalize_column_name-trim_space (quote b'"' s)
      ∙ ap normalize_trimmed
          (trim_space_trimmed (quote b'"' s) (unfold print in print-IsTrimmed (quoted s) tt))
      ∙ normalize_trimmed-quote s

  trim_quotes-Lacks : (s : Text) → Lacks b'"' s → trim_quotes s ≡ s
  unfolding trim_quotes trim_char
  trim_quotes-Lacks s h =
      rw (trim_left_outside (λ c. c == b'"') s (Lacks-StartsOutside s h))
        (trim_right_outside (λ c. c == b'"') s (Lacks-EndsOutside s h))

  normalize_trimmed_unquoted :
      (c : ℕ) (s : Text) → c ≢ b'"' → normalize_trimmed (c ∷ s) ≡ to_lower (trim_quotes (c ∷ s))
  unfolding normalize_trimmed has_prefix
  normalize_trimmed_unquoted c s h = ground arith

  normalize_trimmed-Lacks : (s : Text) → Lacks b'"' s → normalize_trimmed s ≡ to_lower s
  normalize_trimmed-Lacks [] h = unfold normalize_trimmed to_lower in refl
  normalize_trimmed-Lacks (c ∷ s) h =
      normalize_trimmed_unquoted c s h.0 ∙ ap to_lower (trim_quotes-Lacks (c ∷ s) h)

  -- A column name without quotes and outer space is normalised to its lower case.
  pub normalize-plain :
      (s : Text) → Lacks b'"' s → IsTrimmed s → normalize_column_name s ≡ to_lower s
  normalize-plain s h t =
      normalize_column_name-trim_space s
      ∙ ap normalize_trimmed (trim_space_trimmed s t)
      ∙ normalize_trimmed-Lacks s h
