-- ===== src/Preprocess.antt =====
-- preprocess.go: the lines of the input, each without a trailing `//` comment and trailing space,
-- with a scanner that knows single-quoted, double-quoted and dollar-quoted strings across lines.
-- A round of the loop of `stripDoubleSlashComment` is `scan_rune`; runes that the round copies
-- behind the current one (`i += n`) are counted by `copy n`, and `strip n` copies them unread.
pub mod Comments
pub mod Quotes
pub mod Whole
use postgresparser.Prelude.{
  ℕ, zero, suc, ◌+◌, ◌≡◌, refl, Bool, true, false, not, ◌&&◌, ◌||◌, Option, none, some, List, [],
  ◌∷◌, ◌++◌, arith, Text, codes, is_empty, length, ltb, ◌==◌, if◌then◌else◌,
}
use postgresparser.Strings.{Unicode, is_space, trim_right, trim_space, split, join}

-- `quoteState`
pub record QuoteState : Type 0 where
  pub in_single : Bool
  pub in_double : Bool
  pub in_dollar : Bool
  pub dollar_tag : Text

abbrev pub no_quote : QuoteState
no_quote = record { in_single = false; in_double = false; in_dollar = false; dollar_tag = [] }

-- What a round does with the rune that it reads: return, or copy it with the next `n` runes.
pub data Action : Type 0 where
  cut : Action
  copy : ℕ → QuoteState → Action

abbrev pub next_is : ℕ → Text → Bool
next_is q [] = false
next_is q (c ∷ s) = c == q

terminator_loop : Text → Text → Bool
terminator_loop tag [] = false
terminator_loop [] (r ∷ runes) = r == b'$'
terminator_loop (t ∷ tag) (r ∷ runes) = (t == r) && terminator_loop tag runes

-- `hasDollarTerminator` on the runes from `start` on
pub has_dollar_terminator : Text → Text → Bool
unfolding terminator_loop
has_dollar_terminator [] tag = false
has_dollar_terminator (r ∷ runes) tag =
    if ltb (length (r ∷ runes)) (length tag + 2)
    then false
    else (r == b'$') && terminator_loop tag runes

module _ ⦃u : Unicode⦄ where
  unfoldable pub is_dollar_tag_char : ℕ → Bool
  is_dollar_tag_char r = u.is_letter r || u.is_digit r || r == b'_'

  tag_loop : Text → Text → Option Text
  tag_loop [] tag = none
  tag_loop (c ∷ runes) tag =
      if c == b'$'
      then some tag
      else if not (is_dollar_tag_char c)
      then none
      else tag_loop runes (tag ++ c ∷ [])

  -- `parseDollarTag` on the runes from `start` on
  pub parse_dollar_tag : Text → Option Text
  unfolding tag_loop
  parse_dollar_tag [] = none
  parse_dollar_tag (r ∷ runes) = if not (r == b'$') then none else tag_loop runes []

  scan_in_dollar : ℕ → Text → QuoteState → Action
  scan_in_dollar r runes st =
      if (r == b'$') && has_dollar_terminator (r ∷ runes) st.dollar_tag
      then copy (length st.dollar_tag + 1) (record st { in_dollar = false; dollar_tag = [] })
      else copy 0 st

  scan_single : ℕ → Text → QuoteState → Action
  scan_single r runes st =
      if st.in_double
      then copy 0 st
      else if st.in_single && next_is b'\'' runes
      then copy 1 st
      else copy 0 (record st { in_single = not st.in_single })

  scan_double : ℕ → Text → QuoteState → Action
  scan_double r runes st =
      if st.in_single then copy 0 st else copy 0 (record st { in_double = not st.in_double })

  open_dollar : QuoteState → Option Text → Action
  open_dollar st none = copy 0 st
  open_dollar st (some tag) =
      copy (length tag + 1) (record st { in_dollar = true; dollar_tag = tag })

  scan_dollar : ℕ → Text → QuoteState → Action
  unfolding open_dollar
  scan_dollar r runes st =
      if not st.in_single && not st.in_double
      then open_dollar st (parse_dollar_tag (r ∷ runes))
      else copy 0 st

  scan_slash : ℕ → Text → QuoteState → Action
  scan_slash r runes st =
      if not st.in_single && not st.in_double && is_empty st.dollar_tag && next_is b'/' runes
      then cut
      else copy 0 st

  -- one round, at the rune `r` with `runes` behind it
  pub scan_rune : ℕ → Text → QuoteState → Action
  unfolding scan_in_dollar scan_single scan_double scan_dollar scan_slash
  scan_rune r runes st =
      if st.in_dollar
      then scan_in_dollar r runes st
      else if r == b'\''
      then scan_single r runes st
      else if r == b'"'
      then scan_double r runes st
      else if r == b'$'
      then scan_dollar r runes st
      else if r == b'/'
      then scan_slash r runes st
      else copy 0 st

abbrev pub write : ℕ → Text × QuoteState → Text × QuoteState
write r out = (r ∷ out.0, out.1)

module _ ⦃u : Unicode⦄ where
  -- `stripDoubleSlashComment` from a rune on, with `n` runes to copy first
  pub strip : ℕ → Text → QuoteState → Text × QuoteState
  strip n [] st = ([], st)
  strip (suc n) (r ∷ runes) st = write r (strip n runes st)
  strip zero (r ∷ runes) st = elim (scan_rune r runes st) [
    | cut ↦ ([], st)
    | copy n st' ↦ write r (strip n runes st')
  ]

  pub strip_comment : Text → QuoteState → Text × QuoteState
  unfolding strip
  strip_comment line st = strip 0 line st

  -- the loop of `preprocessSQLInput`: the state goes from line to line
  pub strip_lines : List Text → QuoteState → List Text
  unfolding strip_comment trim_right
  strip_lines [] st = []
  strip_lines (line ∷ lines) st =
      trim_right is_space (strip_comment line st).0 ∷ strip_lines lines (strip_comment line st).1

  pub preprocess : Text → Text
  unfolding strip_lines
  preprocess sql =
      if is_empty sql
      then []
      else trim_space (join (b'\n' ∷ []) (strip_lines (split b'\n' sql) no_quote))
