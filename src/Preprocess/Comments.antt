-- ===== src/Preprocess/Comments.antt =====
-- What a line loses: a suffix that starts with `//`, outside every string.
use postgresparser.Prelude.{
  ℕ, zero, suc, ◌≡◌, ◌≢◌, refl, ap, ◌∙◌, false, [], ◌∷◌, ◌++◌, append-nil, arith, Text, All,
}
use postgresparser.Strings.{Unicode}
use postgresparser.Preprocess.{
  QuoteState, no_quote, Action, cut, copy, scan_rune, write, strip, strip_comment,
}

-- The text is empty or starts with two slashes.
abbrev pub IsComment : Text → Type 0
IsComment [] = Unit
IsComment (c ∷ []) = ⊥
IsComment (c ∷ d ∷ s) = (c ≡ b'/') × (d ≡ b'/')

-- What is left of a line, with what is cut off.
pub record Keeps (line kept : Text) : Type 0 where
  pub rest : Text
  pub splits : line ≡ kept ++ rest
  pub comment : IsComment rest

Keeps-cons : {line kept : Text} (r : ℕ) → Keeps line kept → Keeps (r ∷ line) (r ∷ kept)
Keeps-cons r k = record {
  rest = k.rest;
  splits = ap (λ (l : Text). r ∷ l) k.splits;
  comment = k.comment;
}

-- No string is open.
abbrev pub IsPlain : QuoteState → Type 0
IsPlain st = (st.in_single ≡ false) × (st.in_double ≡ false) × (st.in_dollar ≡ false)

module _ ⦃u : Unicode⦄ where
  -- A round stops only at two slashes, with no string open.
  scan_rune-cut :
      (r : ℕ) (runes : Text) (st : QuoteState)
      → scan_rune r runes st ≡ cut
      → IsComment (r ∷ runes) × IsPlain st
  unfolding scan_rune
  scan_rune-cut r [] st h = ground arith
  scan_rune-cut r (c ∷ runes) st h = ground arith

  pub strip-copy :
      (r : ℕ) (runes : Text) (st : QuoteState) (n : ℕ) (st' : QuoteState)
      → scan_rune r runes st ≡ copy n st'
      → strip 0 (r ∷ runes) st ≡ write r (strip n runes st')
  unfolding strip
  strip-copy r runes st n st' h = rw (h, strip)

  pub strip-cut :
      (r : ℕ) (runes : Text) (st : QuoteState)
      → scan_rune r runes st ≡ cut
      → strip 0 (r ∷ runes) st ≡ ([], st)
  unfolding strip
  strip-cut r runes st h = rw (h, strip)

  Keeps-round :
      (r : ℕ) (runes : Text) (st : QuoteState) (a : Action)
      → scan_rune r runes st ≡ a
      → ((n : ℕ) (st' : QuoteState) → Keeps runes (strip n runes st').0)
      → Keeps (r ∷ runes) (strip 0 (r ∷ runes) st).0
  Keeps-round r runes st cut h rest =
      rw (strip-cut r runes st h)
        (record { rest = r ∷ runes; splits = refl; comment = (scan_rune-cut r runes st h).0 })
  Keeps-round r runes st (copy n st') h rest =
      rw (strip-copy r runes st n st' h) (Keeps-cons r (rest n st'))

  strip-Keeps : (n : ℕ) (line : Text) (st : QuoteState) → Keeps line (strip n line st).0
  unfolding strip
  strip-Keeps n [] st = record { rest = []; splits = refl; comment = tt }
  strip-Keeps (suc n) (r ∷ runes) st = Keeps-cons r (strip-Keeps n runes st)
  strip-Keeps zero (r ∷ runes) st =
      Keeps-round r runes st (scan_rune r runes st) refl (λ n st'. strip-Keeps n runes st')

  -- From any line and in any state, the comment stripper keeps a prefix of the line, and the rest
  -- that it cuts is empty or starts with `//`.
  pub strip_comment-Keeps : (line : Text) (st : QuoteState) → Keeps line (strip_comment line st).0
  unfolding strip_comment
  strip_comment-Keeps line st = strip-Keeps 0 line st

  -- No rune that opens a string or a comment.
  abbrev pub IsOrdinary : ℕ → Type 0
  IsOrdinary c = (c ≢ b'\'') × (c ≢ b'"') × (c ≢ b'$') × (c ≢ b'/')

  scan_ordinary :
      (r : ℕ) (runes : Text) (st : QuoteState)
      → IsOrdinary r
      → st.in_dollar ≡ false
      → scan_rune r runes st ≡ copy 0 st
  unfolding scan_rune
  scan_ordinary r runes st h d = ground arith

  pub strip_ordinary :
      (s rest : Text) (st : QuoteState)
      → All IsOrdinary s
      → st.in_dollar ≡ false
      → strip 0 (s ++ rest) st ≡ (s ++ (strip 0 rest st).0, (strip 0 rest st).1)
  strip_ordinary [] rest st h d = refl
  strip_ordinary (c ∷ s) rest st h d =
      strip-copy c (s ++ rest) st 0 st (scan_ordinary c (s ++ rest) st h.0 d)
      ∙ ap (λ (o : Text × QuoteState). write c o) (strip_ordinary s rest st h.1 d)

  scan_slashes : (runes : Text) → scan_rune b'/' (b'/' ∷ runes) no_quote ≡ cut
  unfolding scan_rune
  scan_slashes runes = refl

  -- A line without quotes, dollar signs and slashes before `//`, met outside every literal, keeps
  -- exactly what stands before the `//`, and the state stays that of no open literal.
  pub strip_comment_removes :
      (s comment : Text)
      → All IsOrdinary s
      → strip_comment (s ++ b'/' ∷ b'/' ∷ comment) no_quote ≡ (s, no_quote)
  unfolding strip_comment
  strip_comment_removes s comment h =
      strip_ordinary s (b'/' ∷ b'/' ∷ comment) no_quote h refl
      ∙ rw (strip-cut b'/' (b'/' ∷ comment) no_quote (scan_slashes comment), append-nil)
