-- ===== src/Comment/Literals.antt =====
-- Each literal form is decoded to the content that was written.
use postgresparser.Prelude.{
  ℕ, ◌-◌, ◌+◌, ◌*◌, ◌≡◌, ◌≢◌, refl, ap, ◌∙◌, false, ◌||◌, some, [], ◌∷◌, ◌++◌, append_assoc, Text,
  length, length-append, take, drop, take-append, drop-append, text_eq_self, ◌==◌, if◌then◌else◌,
  arith,
}
use mathlib.Core.Path.{subst}
use postgresparser.Strings.{Unicode, is_space, to_upper, trim_space, has_prefix, undouble_char}
use postgresparser.Strings.Trim.{IsTrimmed, EndsOutside, EndsOutside-last, trim_space_trimmed}
use postgresparser.Strings.Quote.{
  Lacks, double_char, quote, undouble_char-double_char, ends_in-append, drop_end-append,
}
use postgresparser.Comment.{
  apostrophe, backslash, decode_single_quoted, escape_code, decode_escaped, until_dollar, between,
  decode_dollar_quoted, or_raw, escaped_or_raw, decode_quoted, decode_trimmed,
  decode_string_literal,
}

-- A single-quoted literal is decoded to its content.
pub decode_single_quoted-quote : (s : Text) → decode_single_quoted (quote apostrophe s) ≡ some s
unfolding decode_single_quoted quote
decode_single_quoted-quote s = rw (drop_end-append apostrophe (double_char apostrophe s)) (
    ground (
      arith,
      ends_in-append apostrophe apostrophe (apostrophe ∷ double_char apostrophe s),
      length-append (double_char apostrophe s) (apostrophe ∷ []),
      undouble_char-double_char apostrophe s,
    ))

-- the content of an `E'...'` literal
unfoldable pub escape : Text → Text
escape [] = []
escape (c ∷ s) =
    if (c == backslash) || (c == apostrophe) then backslash ∷ c ∷ escape s else c ∷ escape s

-- Escaping is undone.
pub decode_escaped-escape : (s : Text) → decode_escaped (escape s) ≡ s
unfolding decode_escaped escape escape_code
decode_escaped-escape [] = refl
decode_escaped-escape (c ∷ []) = ground arith
decode_escaped-escape (c ∷ d ∷ s) = ground (arith, decode_escaped-escape (d ∷ s))

-- No quote follows a quote in an escaped text.
undouble_char-escape : (s : Text) → undouble_char apostrophe (escape s) ≡ escape s
unfolding undouble_char escape
undouble_char-escape [] = refl
undouble_char-escape (c ∷ []) = ground arith
undouble_char-escape (c ∷ d ∷ s) = ground (arith, undouble_char-escape (d ∷ s))

module _ (delim body : Text) where
  abbrev whole : Text
  whole = delim ++ (body ++ delim)

  length-whole : length whole ≡ length delim + (length body + length delim)
  length-whole = omega (arith, length-append delim (body ++ delim), length-append body delim)

  drop-whole : drop (length whole - length delim) whole ≡ delim
  drop-whole =
      let e : length whole - length delim ≡ length (delim ++ body) =
        omega (arith, length-whole, length-append delim body) in
      rw (e, ← append_assoc delim body delim) (drop-append (delim ++ body) delim)

  take-whole : take (length whole - length delim * 2) (drop (length delim) whole) ≡ body
  take-whole =
      let e : length whole - length delim * 2 ≡ length body = omega (arith, length-whole) in
      rw (e, drop-append delim (body ++ delim)) (take-append body delim)

  between-whole : between delim whole ≡ some body
  unfolding between
  between-whole = rw (drop-whole, text_eq_self delim) (ground (arith, length-whole, take-whole))

until_dollar-append :
    (tag rest : Text) → Lacks b'$' tag → until_dollar (tag ++ b'$' ∷ rest) ≡ some tag
unfolding until_dollar
until_dollar-append [] rest h = refl
until_dollar-append (c ∷ tag) rest h = ground (arith, until_dollar-append tag rest h.1)

-- `$tag$`
abbrev pub delimiter : Text → Text
delimiter tag = b'$' ∷ (tag ++ b'$' ∷ [])

-- A dollar-quoted literal is decoded to its body, whatever that holds.
pub decode_dollar_quoted-delimiter :
    (tag body : Text)
    → Lacks b'$' tag
    → decode_dollar_quoted (delimiter tag ++ (body ++ delimiter tag)) ≡ some body
unfolding decode_dollar_quoted
decode_dollar_quoted-delimiter tag body h =
    rw
      (
        append_assoc tag (b'$' ∷ []) (body ++ delimiter tag),
        until_dollar-append tag (body ++ delimiter tag) h,
      )
      (between-whole (delimiter tag) body)

decode_single_quoted-escape :
    (s : Text) → decode_single_quoted (apostrophe ∷ (escape s ++ apostrophe ∷ [])) ≡ some (escape s)
unfolding decode_single_quoted
decode_single_quoted-escape s = rw (drop_end-append apostrophe (escape s)) (
    ground (
      arith,
      ends_in-append apostrophe apostrophe (apostrophe ∷ escape s),
      length-append (escape s) (apostrophe ∷ []),
      undouble_char-escape s,
    ))

delimited-IsTrimmed : (tag body : Text) → IsTrimmed (delimiter tag ++ (body ++ delimiter tag))
unfolding is_space
delimited-IsTrimmed tag body =
    let regroup : (delimiter tag ++ (body ++ b'$' ∷ tag)) ++ b'$' ∷ []
        ≡ delimiter tag ++ (body ++ delimiter tag) =
      simp append_assoc in
    (
      refl,
      subst (EndsOutside is_space) regroup
          (EndsOutside-last (delimiter tag ++ (body ++ b'$' ∷ tag)) b'$' refl),
    )

module _ ⦃u : Unicode⦄ where
  upper_apostrophe : u.upper b'\'' ≡ b'\''
  upper_apostrophe = u.upper_at_ascii b'\'' (omega arith)

  upper_e : u.upper b'E' ≡ b'E'
  upper_e = u.upper_at_ascii b'E' (omega arith)

  decode_quoted-apostrophe :
      (s : Text)
      → decode_quoted (apostrophe ∷ s)
        ≡ or_raw (apostrophe ∷ s) (decode_single_quoted (apostrophe ∷ s))
  unfolding decode_quoted has_prefix to_upper
  decode_quoted-apostrophe s = rw upper_apostrophe refl

  decode_quoted-e :
      (s : Text)
      → decode_quoted (b'E' ∷ apostrophe ∷ s)
        ≡ escaped_or_raw (b'E' ∷ apostrophe ∷ s) (decode_single_quoted (apostrophe ∷ s))
  unfolding decode_quoted has_prefix to_upper
  decode_quoted-e s = rw (upper_e, upper_apostrophe) refl

  decode_trimmed-other :
      (c : ℕ) (s : Text) → c ≢ b'$' → decode_trimmed (c ∷ s) ≡ decode_quoted (c ∷ s)
  unfolding decode_trimmed has_prefix
  decode_trimmed-other c s h = ground arith

  decode_trimmed-dollar :
      (s text : Text)
      → decode_dollar_quoted (b'$' ∷ s) ≡ some text
      → decode_trimmed (b'$' ∷ s) ≡ text
  unfolding decode_trimmed has_prefix
  decode_trimmed-dollar s text h = rw h refl

  decode_string_literal-trim_space :
      (s : Text) → decode_string_literal s ≡ decode_trimmed (trim_space s)
  unfolding decode_string_literal
  decode_string_literal-trim_space s = refl

  decode_string_literal-trimmed :
      (s : Text) → IsTrimmed s → decode_string_literal s ≡ decode_trimmed s
  decode_string_literal-trimmed s h =
      decode_string_literal-trim_space s ∙ ap decode_trimmed (trim_space_trimmed s h)

  closed-IsTrimmed :
      (c d : ℕ) (s : Text) → is_space c ≡ false → is_space d ≡ false → IsTrimmed (c ∷ (s ++ d ∷ []))
  closed-IsTrimmed c d s hc hd = (hc, EndsOutside-last (c ∷ s) d hd)

  -- A text written as a standard SQL literal, in single quotes that double those inside, is decoded
  -- to the text.
  pub decode_string_literal-quote : (s : Text) → decode_string_literal (quote apostrophe s) ≡ s
  unfolding quote is_space or_raw
  decode_string_literal-quote s =
      decode_string_literal-trimmed (quote apostrophe s)
        (closed-IsTrimmed apostrophe apostrophe (double_char apostrophe s) refl refl)
      ∙ decode_trimmed-other apostrophe (double_char apostrophe s ++ apostrophe ∷ [])
          (λ e. omega (arith, e))
      ∙ decode_quoted-apostrophe (double_char apostrophe s ++ apostrophe ∷ [])
      ∙ ap (or_raw (quote apostrophe s)) (decode_single_quoted-quote s)

  -- A text written as an `E` literal, with its backslashes and quotes escaped by backslashes, is
  -- decoded to the text.
  pub decode_string_literal-escape :
      (s : Text) → decode_string_literal (b'E' ∷ apostrophe ∷ (escape s ++ apostrophe ∷ [])) ≡ s
  unfolding is_space escaped_or_raw
  decode_string_literal-escape s =
      decode_string_literal-trimmed (b'E' ∷ apostrophe ∷ (escape s ++ apostrophe ∷ []))
        (closed-IsTrimmed b'E' apostrophe (apostrophe ∷ escape s) refl refl)
      ∙ decode_trimmed-other b'E' (apostrophe ∷ (escape s ++ apostrophe ∷ []))
          (λ e. omega (arith, e))
      ∙ decode_quoted-e (escape s ++ apostrophe ∷ [])
      ∙ ap (escaped_or_raw (b'E' ∷ apostrophe ∷ (escape s ++ apostrophe ∷ [])))
          (decode_single_quoted-escape s)
      ∙ decode_escaped-escape s

  -- A text between two equal dollar delimiters, whose tag holds no dollar sign, is decoded to the
  -- text.
  pub decode_string_literal-delimiter :
      (tag body : Text)
      → Lacks b'$' tag
      → decode_string_literal (delimiter tag ++ (body ++ delimiter tag)) ≡ body
  decode_string_literal-delimiter tag body h =
      decode_string_literal-trimmed (delimiter tag ++ (body ++ delimiter tag))
        (delimited-IsTrimmed tag body)
      ∙ decode_trimmed-dollar ((tag ++ b'$' ∷ []) ++ (body ++ delimiter tag)) body
          (decode_dollar_quoted-delimiter tag body h)
