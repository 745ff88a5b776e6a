-- ===== src/Preprocess/Quotes.antt =====
-- String literals pass through whole, with whatever slashes they hold.
use postgresparser.Prelude.{
  ℕ, ◌+◌, ◌≡◌, ◌≢◌, refl, sym, ap, ◌∙◌, true, false, some, [], ◌∷◌, ◌++◌, append-nil, append_assoc,
  arith, Text, length, length-append, ◌==◌, ==_iff, ==_self, Bool-cases, inl, inr, All,
}
use postgresparser.Strings.Quote.{Lacks, double_char}
use postgresparser.Strings.{Unicode}
use postgresparser.Preprocess.{
  QuoteState, no_quote, copy, next_is, terminator_loop, has_dollar_terminator, is_dollar_tag_char,
  tag_loop, parse_dollar_tag, scan_rune, write, strip, strip_comment,
}
use postgresparser.Preprocess.Comments.{strip-copy}

abbrev pub single_quoted : QuoteState
single_quoted = record { in_single = true; in_double = false; in_dollar = false; dollar_tag = [] }

abbrev pub double_quoted : QuoteState
double_quoted = record { in_single = false; in_double = true; in_dollar = false; dollar_tag = [] }

abbrev pub dollar_quoted : Text → QuoteState
dollar_quoted tag = record {
  in_single = false;
  in_double = false;
  in_dollar = true;
  dollar_tag = tag;
}

-- What comes before the rest is copied.
abbrev pub prepend : Text → Text × QuoteState → Text × QuoteState
prepend s out = (s ++ out.0, out.1)

module _ ⦃u : Unicode⦄ where
  strip_copies :
      (s rest : Text) (st : QuoteState)
      → strip (length s) (s ++ rest) st ≡ prepend s (strip 0 rest st)
  unfolding strip
  strip_copies [] rest st = refl
  strip_copies (c ∷ s) rest st = ap (λ (o : Text × QuoteState). write c o) (strip_copies s rest st)

  -- `st` copies each rune but `q`, and stays as it is.
  abbrev pub CopiesAllBut : ℕ → QuoteState → Type 0
  CopiesAllBut q st = (r : ℕ) (runes : Text) → r ≢ q → scan_rune r runes st ≡ copy 0 st

  pub strip_inside :
      (q : ℕ) (st : QuoteState)
      → CopiesAllBut q st
      → (s rest : Text) → Lacks q s
      → strip 0 (s ++ rest) st ≡ prepend s (strip 0 rest st)
  strip_inside q st all [] rest h = refl
  strip_inside q st all (c ∷ s) rest h =
      strip-copy c (s ++ rest) st 0 st (all c (s ++ rest) h.0)
      ∙ ap (λ (o : Text × QuoteState). write c o) (strip_inside q st all s rest h.1)

  pub single_copies : CopiesAllBut b'\'' single_quoted
  unfolding scan_rune
  single_copies r runes h = ground arith

  double_copies : CopiesAllBut b'"' double_quoted
  unfolding scan_rune
  double_copies r runes h = ground arith

  dollar_copies : (tag : Text) → CopiesAllBut b'$' (dollar_quoted tag)
  unfolding scan_rune
  dollar_copies tag r runes h = ground arith

  scan_opens : (runes : Text) → scan_rune b'\'' runes no_quote ≡ copy 0 single_quoted
  unfolding scan_rune
  scan_opens runes = refl

  scan_closes :
      (runes : Text)
      → next_is b'\'' runes ≡ false
      → scan_rune b'\'' runes single_quoted ≡ copy 0 no_quote
  unfolding scan_rune
  scan_closes runes h = rw h

  scan_doubled :
      (runes : Text) → scan_rune b'\'' (b'\'' ∷ runes) single_quoted ≡ copy 1 single_quoted
  unfolding scan_rune
  scan_doubled runes = refl

  strip_body :
      (s rest : Text)
      → next_is b'\'' rest ≡ false
      → strip 0 (double_char b'\'' s ++ b'\'' ∷ rest) single_quoted
        ≡ prepend (double_char b'\'' s ++ b'\'' ∷ []) (strip 0 rest no_quote)
  unfolding double_char strip
  strip_body [] rest h = strip-copy b'\'' rest single_quoted 0 no_quote (scan_closes rest h)
  strip_body (c ∷ s) rest h = elim (Bool-cases (c == b'\'')) [
    | inl quote ↦ rw quote (
        strip-copy b'\'' (b'\'' ∷ (double_char b'\'' s ++ b'\'' ∷ rest)) single_quoted 1
          single_quoted (scan_doubled (double_char b'\'' s ++ b'\'' ∷ rest))
        ∙ ap (λ (o : Text × QuoteState). write b'\'' (write b'\'' o)) (strip_body s rest h))
    | inr other ↦ rw other (
        strip-copy c (double_char b'\'' s ++ b'\'' ∷ rest) single_quoted 0 single_quoted
          (single_copies c (double_char b'\'' s ++ b'\'' ∷ rest) (λ e. ground (arith)))
        ∙ ap (λ (o : Text × QuoteState). write c o) (strip_body s rest h))
  ]

  -- A single-quoted literal, whatever it holds with its quotes doubled, passes whole through the
  -- comment stripper, and the rest of the line is stripped as from its start; a condition is that no
  -- quote follows the closing one.
  pub strip_single_literal :
      (s rest : Text)
      → next_is b'\'' rest ≡ false
      → strip_comment (b'\'' ∷ (double_char b'\'' s ++ b'\'' ∷ rest)) no_quote
        ≡ prepend (b'\'' ∷ (double_char b'\'' s ++ b'\'' ∷ [])) (strip_comment rest no_quote)
  unfolding strip_comment
  strip_single_literal s rest h =
      strip-copy b'\'' (double_char b'\'' s ++ b'\'' ∷ rest) no_quote 0 single_quoted (scan_opens _)
      ∙ ap (λ (o : Text × QuoteState). write b'\'' o) (strip_body s rest h)

  scan_opens_double : (runes : Text) → scan_rune b'"' runes no_quote ≡ copy 0 double_quoted
  unfolding scan_rune
  scan_opens_double runes = refl

  scan_closes_double : (runes : Text) → scan_rune b'"' runes double_quoted ≡ copy 0 no_quote
  unfolding scan_rune
  scan_closes_double runes = refl

  -- A double-quoted identifier without inner quotes passes whole through the comment stripper, and
  -- the rest of the line is stripped as from its start.
  pub strip_double_literal :
      (s rest : Text)
      → Lacks b'"' s
      → strip_comment (b'"' ∷ (s ++ b'"' ∷ rest)) no_quote
        ≡ prepend (b'"' ∷ (s ++ b'"' ∷ [])) (strip_comment rest no_quote)
  unfolding strip_comment
  strip_double_literal s rest h =
      strip-copy b'"' (s ++ b'"' ∷ rest) no_quote 0 double_quoted (scan_opens_double _)
      ∙ ap (λ (o : Text × QuoteState). write b'"' o)
          (strip_inside b'"' double_quoted double_copies s (b'"' ∷ rest) h
            ∙ ap (prepend s)
                (strip-copy b'"' rest double_quoted 0 no_quote (scan_closes_double rest))
            ∙ ap (λ (t : Text). (t, (strip 0 rest no_quote).1))
                (sym (append_assoc s (b'"' ∷ []) (strip 0 rest no_quote).0)))

  -- one dollar-quoted literal
  abbrev pub IsTag : Text → Type 0
  IsTag = All (λ c. is_dollar_tag_char c ≡ true)

  dollar_no_tag_char : is_dollar_tag_char b'$' ≡ false
  unfolding is_dollar_tag_char
  dollar_no_tag_char = rw (u.dollar_no_letter, u.dollar_no_digit)

  tag_char-ne-dollar : (c : ℕ) → is_dollar_tag_char c ≡ true → (c == b'$') ≡ false
  tag_char-ne-dollar c h = elim (Bool-cases (c == b'$')) [
    | inl e ↦ cc (h, ap is_dollar_tag_char ((==_iff c b'$').0 e), dollar_no_tag_char)
    | inr e ↦ e
  ]

  tag_loop_reads :
      (tag rest done : Text) → IsTag tag → tag_loop (tag ++ b'$' ∷ rest) done ≡ some (done ++ tag)
  unfolding tag_loop
  tag_loop_reads [] rest done h = rw append-nil
  tag_loop_reads (c ∷ tag) rest done h =
      rw (tag_char-ne-dollar c h.0, h.0, tag_loop_reads tag rest (done ++ c ∷ []) h.1, append_assoc)

  parse_dollar_tag_reads :
      (tag rest : Text) → IsTag tag → parse_dollar_tag (b'$' ∷ (tag ++ b'$' ∷ rest)) ≡ some tag
  unfolding parse_dollar_tag
  parse_dollar_tag_reads tag rest h = tag_loop_reads tag rest [] h

  terminator_loop_found : (tag rest : Text) → terminator_loop tag (tag ++ b'$' ∷ rest) ≡ true
  unfolding terminator_loop
  terminator_loop_found [] rest = refl
  terminator_loop_found (c ∷ tag) rest = rw (==_self c) (terminator_loop_found tag rest)

  has_dollar_terminator_found :
      (tag rest : Text) → has_dollar_terminator (b'$' ∷ (tag ++ b'$' ∷ rest)) tag ≡ true
  unfolding has_dollar_terminator
  has_dollar_terminator_found tag rest =
      ground (arith, terminator_loop_found tag rest, length-append tag (b'$' ∷ rest))

  scan_opens_dollar :
      (tag rest : Text)
      → IsTag tag
      → scan_rune b'$' (tag ++ b'$' ∷ rest) no_quote ≡ copy (length tag + 1) (dollar_quoted tag)
  unfolding scan_rune
  scan_opens_dollar tag rest h = rw (parse_dollar_tag_reads tag rest h)

  scan_closes_dollar :
      (tag rest : Text)
      → scan_rune b'$' (tag ++ b'$' ∷ rest) (dollar_quoted tag) ≡ copy (length tag + 1) no_quote
  unfolding scan_rune
  scan_closes_dollar tag rest = rw (has_dollar_terminator_found tag rest)

  strip_delimiter :
      (tag rest : Text) (st : QuoteState)
      → strip (length tag + 1) (tag ++ b'$' ∷ rest) st
        ≡ prepend (tag ++ b'$' ∷ []) (strip 0 rest st)
  strip_delimiter tag rest st =
      rw (← append_assoc tag (b'$' ∷ []) rest, ← length-append tag (b'$' ∷ []))
        (strip_copies (tag ++ b'$' ∷ []) rest st)

  -- A dollar-quoted literal with a valid tag and a body without dollar signs passes whole through
  -- the comment stripper, and the rest of the line is stripped as from its start.
  pub strip_dollar_literal :
      (tag s rest : Text)
      → IsTag tag
      → Lacks b'$' s
      → strip_comment (b'$' ∷ (tag ++ b'$' ∷ (s ++ b'$' ∷ (tag ++ b'$' ∷ rest)))) no_quote
        ≡ prepend
            (b'$' ∷ ((tag ++ b'$' ∷ []) ++ s ++ b'$' ∷ (tag ++ b'$' ∷ [])))
            (strip_comment rest no_quote)
  unfolding strip_comment
  strip_dollar_literal tag s rest ht hs =
      strip-copy b'$' _ no_quote (length tag + 1) (dollar_quoted tag) (scan_opens_dollar tag _ ht)
      ∙ ap (λ (o : Text × QuoteState). write b'$' o)
          (strip_delimiter tag (s ++ b'$' ∷ (tag ++ b'$' ∷ rest)) (dollar_quoted tag)
            ∙ ap (prepend (tag ++ b'$' ∷ [])) (
                strip_inside b'$' (dollar_quoted tag) (dollar_copies tag) s _ hs
                ∙ ap (prepend s) (
                    strip-copy b'$' (tag ++ b'$' ∷ rest) (dollar_quoted tag) (length tag + 1)
                      no_quote (scan_closes_dollar tag rest)
                    ∙ ap (λ (o : Text × QuoteState). write b'$' o)
                        (strip_delimiter tag rest no_quote)))
            ∙ simp append_assoc)
