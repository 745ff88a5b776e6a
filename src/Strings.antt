-- ===== src/Strings.antt =====
-- The functions of Go's packages `strings` and `unicode` that the parser calls, on texts of code
-- points. The tables of `unicode` are the record `Unicode`; `unicode.IsSpace` is written out.
pub mod Trim
pub mod Split
pub mod Quote
pub mod Decimal
pub mod Search
use postgresparser.Prelude.{
  ℕ, zero, suc, ◌+◌, ◌-◌, ◌<◌, ◌≡◌, refl, Bool, true, false, ◌&&◌, ◌||◌, Option, none, some, List,
  [], ◌∷◌, ◌++◌, map, arith, Text, text_eq, ltb, leb, ◌==◌, if◌then◌else◌,
}

-- `unicode.ToUpper` and `unicode.ToLower` of an ASCII character
abbrev pub upper_ascii : ℕ → ℕ
upper_ascii c = if leb b'a' c && leb c b'z' then c - 32 else c

abbrev pub lower_ascii : ℕ → ℕ
lower_ascii c = if leb b'A' c && leb c b'Z' then c + 32 else c

-- `unicode.IsLetter`, `unicode.IsDigit`, `unicode.ToLower`, `unicode.ToUpper`, and the first
-- character of the cycle of `unicode.SimpleFold`, with what they are at some ASCII characters.
pub record Unicode : Type 0 where
  pub is_letter : ℕ → Bool
  pub is_digit : ℕ → Bool
  pub lower : ℕ → ℕ
  pub upper : ℕ → ℕ
  pub fold : ℕ → ℕ
  pub upper_at_ascii : (c : ℕ) → c < 128 → upper c ≡ upper_ascii c
  pub lower_at_ascii : (c : ℕ) → c < 128 → lower c ≡ lower_ascii c
  pub dollar_no_letter : is_letter b'$' ≡ false
  pub dollar_no_digit : is_digit b'$' ≡ false

module _ ⦃u : Unicode⦄ where
  unfoldable pub to_lower : Text → Text
  to_lower = map u.lower

  unfoldable pub to_upper : Text → Text
  to_upper = map u.upper

  -- `strings.EqualFold`
  unfoldable pub equal_fold : Text → Text → Bool
  equal_fold s t = text_eq (map u.fold s) (map u.fold t)

-- `unicode.IsSpace`
unfoldable pub is_space : ℕ → Bool
is_space c =
    (leb 9 c && leb c 13)
    || c == b' '
    || c == 0x85
    || c == 0xa0
    || c == 0x1680
    || (leb 0x2000 c && leb c 0x200a)
    || c == 0x2028
    || c == 0x2029
    || c == 0x202f
    || c == 0x205f
    || c == 0x3000

drop_left : (ℕ → Bool) → Text → Text
drop_left test [] = []
drop_left test (c ∷ s) = if test c then drop_left test s else c ∷ s

drop_last : (ℕ → Bool) → ℕ → Text → Text
drop_last test c [] = if test c then [] else c ∷ []
drop_last test c (d ∷ s) = c ∷ d ∷ s

-- `strings.TrimLeftFunc` and `strings.TrimRightFunc`
unfoldable pub trim_left : (ℕ → Bool) → Text → Text
unfolding drop_left
trim_left = drop_left

unfoldable pub trim_right : (ℕ → Bool) → Text → Text
unfolding drop_last
trim_right test [] = []
trim_right test (c ∷ s) = drop_last test c (trim_right test s)

-- `strings.TrimSpace`
unfoldable pub trim_space : Text → Text
unfolding is_space trim_left trim_right
trim_space s = trim_right is_space (trim_left is_space s)

-- `strings.Trim(s, cutset)` for a cutset of one character
unfoldable pub trim_char : ℕ → Text → Text
unfolding trim_left trim_right
trim_char q s = trim_right (λ c. c == q) (trim_left (λ c. c == q) s)

-- `strings.HasPrefix(s, prefix)`, with the prefix first
unfoldable pub has_prefix : Text → Text → Bool
has_prefix [] s = true
has_prefix (p ∷ ps) [] = false
has_prefix (p ∷ ps) (c ∷ s) = (p == c) && has_prefix ps s

-- The first character joins the first part.
unfoldable pub cons_part : ℕ → List Text → List Text
cons_part c [] = (c ∷ []) ∷ []
cons_part c (p ∷ ps) = (c ∷ p) ∷ ps

-- `strings.Split(s, sep)` for a separator of one character
unfoldable pub split : ℕ → Text → List Text
unfolding cons_part
split sep [] = [] ∷ []
split sep (c ∷ s) = let parts = split sep s in if c == sep then [] ∷ parts else cons_part c parts

join_rest : Text → List Text → Text
join_rest sep [] = []
join_rest sep (p ∷ ps) = sep ++ p ++ join_rest sep ps

-- `strings.Join(parts, sep)`
unfoldable pub join : Text → List Text → Text
unfolding join_rest
join sep [] = []
join sep (p ∷ ps) = p ++ join_rest sep ps

-- `strings.HasSuffix(s, suffix)` for a suffix of one character
unfoldable pub ends_in : ℕ → Text → Bool
ends_in q [] = false
ends_in q (c ∷ []) = c == q
ends_in q (c ∷ d ∷ s) = ends_in q (d ∷ s)

-- `s[:len(s)-1]`, for a text that is not empty
unfoldable pub drop_end : Text → Text
drop_end [] = []
drop_end (c ∷ []) = []
drop_end (c ∷ d ∷ s) = c ∷ drop_end (d ∷ s)

-- `strings.ReplaceAll(s, qq, q)`, where `qq` is the character `q` twice
unfoldable pub undouble_char : ℕ → Text → Text
undouble_char q [] = []
undouble_char q (c ∷ []) = c ∷ []
undouble_char q (c ∷ d ∷ s) =
    let pair = q ∷ undouble_char q s in
    let single = c ∷ undouble_char q (d ∷ s) in if (c == q) && (d == q) then pair else single
