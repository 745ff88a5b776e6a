-- ===== src/Select/Lateral/Laws.antt =====
-- Where `containsWordDot` finds a word.
use postgresparser.Prelude.{
  ℕ, ◌≡◌, ◌↔◌, refl, sym, ap, Bool, true, false, ◌&&◌, Bool-cases, inl, inr, Option, none, some, [],
  ◌∷◌, ◌++◌, Text, codes, is_empty, ==_iff, ==_self, ◌==◌, arith,
}
use postgresparser.Strings.{Unicode, has_prefix}
use postgresparser.Select.Lateral.{is_boundary, word_dot_from, contains_word_dot}

both_true : (a b : Bool) → (a && b) ≡ true → (a ≡ true) × (b ≡ true)
both_true a b h = ground arith

has_prefix_split :
    (needle s : Text) → has_prefix needle s ≡ true → (after : Text) × (s ≡ needle ++ after)
unfolding has_prefix
has_prefix_split [] s h = (s, refl)
has_prefix_split (n ∷ needle) [] h = ground arith
has_prefix_split (n ∷ needle) (c ∷ s) h =
    let both = both_true (n == c) (has_prefix needle s) h in
    let rest = has_prefix_split needle s (both.1) in
    (rest.0, rw (sym ((==_iff n c).0 (both.0)), rest.1) refl)

has_prefix_append : (needle after : Text) → has_prefix needle (needle ++ after) ≡ true
unfolding has_prefix
has_prefix_append [] after = refl
has_prefix_append (n ∷ needle) after = rw (==_self n, has_prefix_append needle after) refl

-- The code point before a place: the last of the text before it.
pub last_of : Option ℕ → Text → Option ℕ
last_of prev [] = prev
last_of prev (c ∷ cs) = last_of (some c) cs

module _ ⦃u : Unicode⦄ where
  -- The needle stands somewhere behind a boundary.
  pub StandsIn : Text → Option ℕ → Text → Type 0
  StandsIn needle prev text =
      (before : Text) × (after : Text) × (text ≡ before ++ needle ++ after)
      × (is_boundary (last_of prev before) ≡ true)

  found_StandsIn :
      (needle : Text) (prev : Option ℕ) (text : Text)
      → word_dot_from needle prev text ≡ true
      → StandsIn needle prev text
  unfolding word_dot_from StandsIn last_of
  found_StandsIn needle prev [] h = ground arith
  found_StandsIn needle prev (c ∷ text) h =
      elim (Bool-cases (has_prefix needle (c ∷ text) && is_boundary prev)) [
        | inl here ↦
            let both = both_true _ _ here in
            let split = has_prefix_split needle (c ∷ text) (both.0) in
            ([], split.0, split.1, both.1)
        | inr later ↦
            let rest = found_StandsIn needle (some c) text (rw later at h) in
            (c ∷ rest.0, rest.1, ap (λ s. c ∷ s) (rest.2), rest.3)
      ]

  StandsIn_found :
      (n : ℕ) (needle : Text) (prev : Option ℕ) (before after : Text)
      → is_boundary (last_of prev before) ≡ true
      → word_dot_from (n ∷ needle) prev (before ++ (n ∷ needle) ++ after) ≡ true
  unfolding word_dot_from last_of
  StandsIn_found n needle prev [] after h = rw (has_prefix_append (n ∷ needle) after, h) refl
  StandsIn_found n needle prev (c ∷ before) after h =
      elim (Bool-cases
        (has_prefix (n ∷ needle) (c ∷ (before ++ (n ∷ needle) ++ after)) && is_boundary prev)) [
          | inl here ↦ rw here refl
          | inr later ↦ rw later (StandsIn_found n needle (some c) before after h)
        ]

  -- For a word that is not empty, the search for the word and a dot succeeds exactly when the text
  -- is some text, the word, a dot and some text, and the text before the word is empty or ends in a
  -- character whose last byte is no letter, no digit and no underscore.
  pub contains_word_dot_iff :
      (text word : Text)
      → is_empty word ≡ false
      → (contains_word_dot text word ≡ true) ↔ StandsIn (word ++ codes ".") none text
  unfolding contains_word_dot StandsIn
  contains_word_dot_iff text [] h = ground arith
  contains_word_dot_iff text (n ∷ word) h = (
    found_StandsIn (n ∷ word ++ codes ".") none text,
    λ k. rw (k.2) (StandsIn_found n (word ++ codes ".") none (k.0) (k.1) (k.3)),
  )
