-- ===== src/Names/RoundTrip.antt =====
-- The splitters read printed names back, and a split loses nothing.
use postgresparser.Prelude.{
  ◌≡◌, ◌≢◌, refl, sym, ap, ◌∙◌, Bool, true, false, not, List, [], ◌∷◌, ◌++◌, map, append-nil,
  append_assoc, arith, Text, All, Bool-cases, inl, inr, ◌==◌,
}
use postgresparser.Strings.{is_space, trim_space, join}
use postgresparser.Strings.Trim.{IsTrimmed, IsTrimmed-append, trim_space_trimmed}
use postgresparser.Strings.Quote.{Lacks, double_char, quote}
use postgresparser.Names.{
  split_loop, split_quoted_dot, last_or, init, dot, qualified_parts, split_qualified_name,
  column_parts, split_qualified_column_name,
}
use postgresparser.Names.Print.{Name, plain, quoted, print, IsPrintable, print-IsTrimmed}

split_loop-ne-nil : (q : Bool) (part s : Text) → split_loop q part s ≢ []
unfolding split_loop
split_loop-ne-nil q part [] = ground arith
split_loop-ne-nil q part (c ∷ s) =
    ground
      (arith, split_loop-ne-nil (not q) (part ++ c ∷ []) s, split_loop-ne-nil q (part ++ c ∷ []) s)

join-cons : (p : Text) (ps : List Text) → ps ≢ [] → join dot (p ∷ ps) ≡ p ++ b'.' ∷ join dot ps
unfolding join
join-cons p [] h = absurd (h refl)
join-cons p (q ∷ ps) h = refl

join_one : (p : Text) → join dot (p ∷ []) ≡ p
unfolding join
join_one p = append-nil p

join-split_loop : (q : Bool) (part s : Text) → join dot (split_loop q part s) ≡ part ++ s
unfolding split_loop
join-split_loop q part [] = unfold join in refl
join-split_loop q part (c ∷ s) = ground (
  arith,
  join-split_loop (not q) (part ++ c ∷ []) s,
  join-split_loop q (part ++ c ∷ []) s,
  join-split_loop q [] s,
  append_assoc part (c ∷ []) s,
  join-cons part (split_loop q [] s) (split_loop-ne-nil q [] s),
)

-- The parts of any text, joined by dots, are the text again.
pub join-split_quoted_dot : (s : Text) → join dot (split_quoted_dot s) ≡ s
unfolding split_quoted_dot
join-split_quoted_dot s = join-split_loop false [] s

-- Text that does not end a part is taken into it.
abbrev TakenWhole : Bool → Text → Type 0
TakenWhole q s = (part rest : Text) → split_loop q part (s ++ rest) ≡ split_loop q (part ++ s) rest

plain-TakenWhole : (s : Text) → Lacks b'"' s → Lacks b'.' s → TakenWhole false s
unfolding split_loop
plain-TakenWhole [] hq hd part rest = rw append-nil
plain-TakenWhole (c ∷ s) hq hd part rest =
    ground (arith, plain-TakenWhole s hq.1 hd.1 (part ++ c ∷ []) rest, append_assoc part (c ∷ []) s)

body-TakenWhole :
    (s part rest : Text)
    → split_loop true part (double_char b'"' s ++ b'"' ∷ rest)
      ≡ split_loop false (part ++ double_char b'"' s ++ b'"' ∷ []) rest
unfolding split_loop double_char
body-TakenWhole [] part rest = rw append-nil
body-TakenWhole (c ∷ s) part rest = elim (Bool-cases (c == b'"')) [
  | inl hit ↦ rw hit (body-TakenWhole s ((part ++ b'"' ∷ []) ++ b'"' ∷ []) rest ∙ simp append_assoc)
  | inr miss ↦ rw miss (
      ground (
        arith,
        body-TakenWhole s (part ++ c ∷ []) rest,
        append_assoc part (c ∷ []) (double_char b'"' s),
      ))
]

quoted-TakenWhole : (s : Text) → TakenWhole false (quote b'"' s)
unfolding quote split_loop
quoted-TakenWhole s part rest =
    rw append_assoc (body-TakenWhole s (part ++ b'"' ∷ []) rest ∙ simp append_assoc)

print-TakenWhole : (n : Name) → IsPrintable n → TakenWhole false (print n)
unfolding print
print-TakenWhole (plain s) h = plain-TakenWhole s h.0 h.1
print-TakenWhole (quoted s) h = quoted-TakenWhole s

split_at_dot :
    (part rest : Text) → split_loop false part (b'.' ∷ rest) ≡ part ∷ split_loop false [] rest
unfolding split_loop
split_at_dot part rest = refl

split_loop-one : (n : Name) → IsPrintable n → split_loop false [] (print n) ≡ print n ∷ []
split_loop-one n h =
    ap (split_loop false []) (sym (append-nil (print n)))
    ∙ print-TakenWhole n h [] []
    ∙ (unfold split_loop in refl)

split_loop-more :
    (n : Name) (rest : Text)
    → IsPrintable n
    → split_loop false [] (print n ++ b'.' ∷ rest) ≡ print n ∷ split_loop false [] rest
split_loop-more n rest h = print-TakenWhole n h [] (b'.' ∷ rest) ∙ split_at_dot (print n) rest

split_loop_two :
    (n m : Name)
    → IsPrintable n
    → IsPrintable m
    → split_quoted_dot (print n ++ b'.' ∷ print m) ≡ print n ∷ print m ∷ []
unfolding split_quoted_dot
split_loop_two n m hn hm =
    split_loop-more n (print m) hn ∙ ap (λ (l : List Text). print n ∷ l) (split_loop-one m hm)

-- Printable names, plain or quoted and with any content between the quotes, that are joined by dots
-- are split back into the same names.
pub split_quoted_dot-join :
    (n : Name) (ns : List Name)
    → All IsPrintable (n ∷ ns)
    → split_quoted_dot (join dot (map print (n ∷ ns))) ≡ map print (n ∷ ns)
unfolding split_quoted_dot
split_quoted_dot-join n [] h = ap (split_loop false []) (join_one (print n)) ∙ split_loop-one n h.0
split_quoted_dot-join n (m ∷ ns) h =
    ap (split_loop false []) (join-cons (print n) (print m ∷ map print ns) (λ e. cc))
    ∙ split_loop-more n (join dot (map print (m ∷ ns))) h.0
    ∙ ap (λ (l : List Text). print n ∷ l) (split_quoted_dot-join m ns h.1)

split_qualified_name-parts :
    (s : Text) → split_qualified_name s ≡ qualified_parts (split_quoted_dot s)
unfolding split_qualified_name trim_space
split_qualified_name-parts [] = refl
split_qualified_name-parts (c ∷ s) = refl

trim_space-print : (n : Name) → IsPrintable n → trim_space (print n) ≡ print n
trim_space-print n h = trim_space_trimmed (print n) (print-IsTrimmed n h)

-- A schema and a name, plain or quoted, that are joined by a dot are split back into the two.
pub split_qualified_name-join :
    (schema name : Name)
    → IsPrintable schema
    → IsPrintable name
    → split_qualified_name (print schema ++ b'.' ∷ print name) ≡ (print schema, print name)
unfolding qualified_parts last_or init
split_qualified_name-join schema name hs hn =
    split_qualified_name-parts (print schema ++ b'.' ∷ print name)
    ∙ ap qualified_parts (split_loop_two schema name hs hn)
    ∙ rw (join_one, trim_space-print schema hs, trim_space-print name hn)

-- A name without a schema, plain or quoted, is split into an empty schema and the name.
pub split_qualified_name-print :
    (name : Name) → IsPrintable name → split_qualified_name (print name) ≡ ([], print name)
unfolding qualified_parts split_quoted_dot
split_qualified_name-print name h =
    split_qualified_name-parts (print name)
    ∙ ap qualified_parts (split_loop-one name h)
    ∙ rw (trim_space-print name h)

dotted-IsTrimmed : (s t : Text) → IsTrimmed s → IsTrimmed t → IsTrimmed (s ++ b'.' ∷ t)
dotted-IsTrimmed s t = IsTrimmed-append s b'.' t (unfold is_space in refl)

-- A schema, a table and a column, plain or quoted, that are joined by dots are split back into the
-- three.
pub split_qualified_column_name-join :
    (schema table column : Name)
    → IsPrintable schema
    → IsPrintable table
    → IsPrintable column
    → split_qualified_column_name (print schema ++ b'.' ∷ (print table ++ b'.' ∷ print column))
      ≡ (print schema, print table, print column)
unfolding split_qualified_column_name column_parts last_or init
split_qualified_column_name-join schema table column hs ht hc =
    ap (λ (s : Text). column_parts (split_quoted_dot s))
      (trim_space_trimmed _ (
        dotted-IsTrimmed (print schema) (print table ++ b'.' ∷ print column)
          (print-IsTrimmed schema hs)
          (dotted-IsTrimmed (print table) (print column) (print-IsTrimmed table ht)
            (print-IsTrimmed column hc))))
    ∙ ap column_parts (
        split_loop-more schema _ hs
        ∙ ap (λ (l : List Text). print schema ∷ l) (split_loop_two table column ht hc))
    ∙ rw (
      join_one,
      trim_space-print schema hs,
      trim_space-print table ht,
      trim_space-print column hc,
    )
