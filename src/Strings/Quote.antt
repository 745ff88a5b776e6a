-- ===== src/Strings/Quote.antt =====
-- The text that stands between two quotes for a given content: each quote in it is doubled.
use postgresparser.Prelude.{
  ℕ, ◌≡◌, ◌≢◌, refl, ap, [], ◌∷◌, ◌++◌, arith, Text, ◌==◌, if◌then◌else◌, All,
}
use postgresparser.Strings.{ends_in, drop_end, undouble_char}

unfoldable pub double_char : ℕ → Text → Text
double_char q [] = []
double_char q (c ∷ s) = if c == q then q ∷ q ∷ double_char q s else c ∷ double_char q s

-- The text does not hold the character.
abbrev pub Lacks : ℕ → Text → Type 0
Lacks q = All (λ c. c ≢ q)

pub double_char-Lacks : (q : ℕ) (s : Text) → Lacks q s → double_char q s ≡ s
unfolding double_char
double_char-Lacks q [] h = refl
double_char-Lacks q (c ∷ s) h = ground (arith, double_char-Lacks q s h.1)

unfoldable pub quote : ℕ → Text → Text
quote q s = q ∷ (double_char q s ++ q ∷ [])

-- Undoing the doubling gives the content back.
pub undouble_char-double_char : (q : ℕ) (s : Text) → undouble_char q (double_char q s) ≡ s
unfolding double_char undouble_char
undouble_char-double_char q [] = refl
undouble_char-double_char q (c ∷ []) = ground arith
undouble_char-double_char q (c ∷ d ∷ s) = ground (arith, undouble_char-double_char q (d ∷ s))

pub ends_in-append : (q c : ℕ) (s : Text) → ends_in q (s ++ c ∷ []) ≡ (c == q)
unfolding ends_in
ends_in-append q c [] = refl
ends_in-append q c (d ∷ []) = refl
ends_in-append q c (d ∷ e ∷ s) = ends_in-append q c (e ∷ s)

pub drop_end-append : (c : ℕ) (s : Text) → drop_end (s ++ c ∷ []) ≡ s
unfolding drop_end
drop_end-append c [] = refl
drop_end-append c (d ∷ []) = refl
drop_end-append c (d ∷ e ∷ s) = ap (λ (t : Text). d ∷ t) (drop_end-append c (e ∷ s))
