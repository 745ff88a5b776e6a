-- ===== src/Usage/Using/Laws.antt =====
-- USING adds usages behind the others, and nothing else changes.
use postgresparser.Prelude.{Bool-cases, inl, inr, Option, none, some, List, Text}
use postgresparser.Strings.{Unicode, trim_space, to_upper, has_prefix}
use postgresparser.Prelude.{codes}
use postgresparser.Ir.{TableRef, QueryFields}
use postgresparser.Query.Grown.{GrownFields, fields_refl, more_usages-Grown}
use postgresparser.Usage.Using.{
  last_two_bases, using_columns, using_of, record_using_parts, record_using_of, record_using,
}

using_of-Grown :
    (q : QueryFields) (cols : List Text) (context : Text) (tables : Option (TableRef × TableRef))
    → GrownFields q (using_of q cols context tables)
unfolding using_of
using_of-Grown q cols context none = fields_refl q
using_of-Grown q cols context (some tables) = more_usages-Grown q _

record_using_of-Grown :
    (q : QueryFields) (clause : Text) (cols : Option (List Text))
    → GrownFields q (record_using_of q clause cols)
unfolding record_using_of record_using_parts
record_using_of-Grown q clause none = fields_refl q
record_using_of-Grown q clause (some cols) = using_of-Grown q cols clause (last_two_bases q.tables)

module _ ⦃u : Unicode⦄ where
  pub record_using-Grown : (q : QueryFields) (clause : Text) → GrownFields q (record_using q clause)
  unfolding record_using
  record_using-Grown q clause =
      elim (Bool-cases (has_prefix (codes "USING") (to_upper (trim_space clause)))) [
        | inl h ↦ rw h (record_using_of-Grown q clause (using_columns clause))
        | inr h ↦ rw h (fields_refl q)
      ]
