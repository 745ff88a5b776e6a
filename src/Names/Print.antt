-- ===== src/Names/Print.antt =====
-- Identifiers as SQL writes them, an independent description of the texts that names stand in.
use postgresparser.Prelude.{refl, ◌∷◌, Text}
use postgresparser.Strings.{is_space}
use postgresparser.Strings.Trim.{IsTrimmed, EndsOutside, EndsOutside-last}
use postgresparser.Strings.Quote.{Lacks, double_char, quote}

-- A name is written plainly or between double quotes.
pub data Name : Type 0 where
  plain : Text → Name
  quoted : Text → Name

unfoldable pub print : Name → Text
unfolding quote
print (plain s) = s
print (quoted s) = quote b'"' s

-- A plain name holds no quote, dot or outer space; a quoted one may hold anything.
abbrev pub IsPrintable : Name → Type 0
IsPrintable (plain s) = Lacks b'"' s × Lacks b'.' s × IsTrimmed s
IsPrintable (quoted s) = Unit

quote-EndsOutside : (s : Text) → EndsOutside is_space (quote b'"' s)
unfolding quote
quote-EndsOutside s = EndsOutside-last (b'"' ∷ double_char b'"' s) b'"' (unfold is_space in refl)

pub print-IsTrimmed : (n : Name) → IsPrintable n → IsTrimmed (print n)
unfolding print
print-IsTrimmed (plain s) h = h.2
print-IsTrimmed (quoted s) h = (unfold is_space in refl, quote-EndsOutside s)
