-- ===== src/Preprocess/Whole.antt =====
-- The state between runes and lines, and the preprocessed text as a whole.
use postgresparser.Prelude.{
  ℕ, zero, suc, ◌≡◌, refl, ap, false, ◌&&◌, ◌||◌, List, [], ◌∷◌, ◌++◌, map, append-nil, arith, Text,
  length, All,
}
use postgresparser.Strings.{Unicode, is_space, trim_right}
use postgresparser.Strings.Trim.{
  IsTrimmed, EndsOutside, trim_right-EndsOutside, trim_space-IsTrimmed,
}
use postgresparser.Strings.Quote.{Lacks}
use postgresparser.Preprocess.{
  QuoteState, Action, cut, copy, scan_rune, strip, strip_comment, strip_lines, preprocess,
}
use postgresparser.Preprocess.Comments.{strip-copy, strip-cut}
use postgresparser.Preprocess.Quotes.{single_quoted, strip_inside, single_copies}

-- At most one kind of string is open, and a tag is kept only while a dollar-quoted one is.
pub record IsQuoteState (st : QuoteState) : Type 0 where
  pub one_quote : (st.in_single && st.in_double) ≡ false
  pub dollar_alone : (st.in_dollar && (st.in_single || st.in_double)) ≡ false
  pub tag_in_dollar : st.in_dollar ≡ false → st.dollar_tag ≡ []

abbrev ActionIsQuoteState : Action → Type 0
ActionIsQuoteState cut = Unit
ActionIsQuoteState (copy n st) = IsQuoteState st

module _ ⦃u : Unicode⦄ where
  scan_rune-IsQuoteState :
      (r : ℕ) (runes : Text) (st : QuoteState)
      → IsQuoteState st
      → ActionIsQuoteState (scan_rune r runes st)
  unfolding scan_rune
  scan_rune-IsQuoteState r runes st h = ground arith

  round-IsQuoteState :
      (r : ℕ) (runes : Text) (st : QuoteState) (a : Action)
      → scan_rune r runes st ≡ a
      → IsQuoteState st
      → ActionIsQuoteState a
      → ((n : ℕ) (st' : QuoteState) → IsQuoteState st' → IsQuoteState (strip n runes st').1)
      → IsQuoteState (strip 0 (r ∷ runes) st).1
  round-IsQuoteState r runes st cut e h ha rest = rw (strip-cut r runes st e) h
  round-IsQuoteState r runes st (copy n st') e h ha rest =
      rw (strip-copy r runes st n st' e) (rest n st' ha)

  strip-IsQuoteState :
      (n : ℕ) (line : Text) (st : QuoteState) → IsQuoteState st → IsQuoteState (strip n line st).1
  unfolding strip
  strip-IsQuoteState n [] st h = h
  strip-IsQuoteState (suc n) (r ∷ runes) st h = strip-IsQuoteState n runes st h
  strip-IsQuoteState zero (r ∷ runes) st h =
      round-IsQuoteState r runes st (scan_rune r runes st) refl h
        (scan_rune-IsQuoteState r runes st h) (λ n st' h'. strip-IsQuoteState n runes st' h')

  -- A line leaves a well-formed state of the literals well-formed: at most one kind of literal is
  -- open, and a tag is kept only while a dollar-quoted literal is open.
  pub strip_comment-IsQuoteState :
      (line : Text) (st : QuoteState) → IsQuoteState st → IsQuoteState (strip_comment line st).1
  unfolding strip_comment
  strip_comment-IsQuoteState line st h = strip-IsQuoteState 0 line st h

  pub strip_lines-EndsOutside :
      (lines : List Text) (st : QuoteState) → All (EndsOutside is_space) (strip_lines lines st)
  unfolding strip_lines
  strip_lines-EndsOutside [] st = tt
  strip_lines-EndsOutside (line ∷ lines) st = (
    trim_right-EndsOutside is_space (strip_comment line st).0,
    strip_lines-EndsOutside lines (strip_comment line st).1,
  )

  pub length-strip_lines :
      (lines : List Text) (st : QuoteState) → length (strip_lines lines st) ≡ length lines
  unfolding strip_lines
  length-strip_lines [] st = refl
  length-strip_lines (line ∷ lines) st = ap suc (length-strip_lines lines (strip_comment line st).1)

  -- A preprocessed script neither starts nor ends with white space.
  pub preprocess-IsTrimmed : (sql : Text) → IsTrimmed (preprocess sql)
  unfolding preprocess
  preprocess-IsTrimmed [] = (tt, tt)
  preprocess-IsTrimmed (c ∷ s) = trim_space-IsTrimmed _

  strip_in_single :
      (line : Text) → Lacks b'\'' line → strip_comment line single_quoted ≡ (line, single_quoted)
  unfolding strip_comment strip
  strip_in_single line h =
      strip_at_end line h (strip_inside b'\'' single_quoted single_copies line [] h)
    where
      strip_at_end :
          (l : Text)
          → Lacks b'\'' l
          → strip 0 (l ++ []) single_quoted ≡ (l ++ [], single_quoted)
          → strip 0 l single_quoted ≡ (l, single_quoted)
      strip_at_end l _ e = rw append-nil at e

  -- Lines without a quote that stand inside an open single-quoted literal lose the white space at
  -- their ends and nothing else.
  pub strip_lines_in_single :
      (lines : List Text)
      → All (Lacks b'\'') lines
      → strip_lines lines single_quoted ≡ map (trim_right is_space) lines
  unfolding strip_lines
  strip_lines_in_single [] h = refl
  strip_lines_in_single (line ∷ lines) h =
      rw (strip_in_single line h.0)
        (ap (λ (ls : List Text). trim_right is_space line ∷ ls) (strip_lines_in_single lines h.1))
