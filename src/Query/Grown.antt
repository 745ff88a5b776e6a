-- ===== src/Query/Grown.antt =====
-- Queries to which something was added: the command and the text stay, and the tables and the
-- column usages are behind those that were there.
use postgresparser.Prelude.{◌≡◌, refl, sym, ◌∙◌, List, [], ◌++◌, append-nil, append_assoc}
use postgresparser.Errors.{Result, ok, err, ◌>>=◌}
use postgresparser.Ir.{
  TableRef, ColumnUsage, QueryFields, ParsedQuery, parsed, Subqueries, Ctes, Merge,
}
use postgresparser.Query.{
  fields, on_fields, set_fields, add_subqueries, add_subquery, add_ctes, set_merge, add_tables,
}

unfoldable pub Begins : {A : Type 0} → List A → List A → Type 0
Begins {A = A} xs ys = (more : List A) × (ys ≡ xs ++ more)

module _ {A : Type 0} where
  pub Begins-refl : (xs : List A) → Begins xs xs
  unfolding Begins
  Begins-refl xs = ([], sym (append-nil xs))

  pub Begins-append : (xs more : List A) → Begins xs (xs ++ more)
  unfolding Begins
  Begins-append xs more = (more, refl)

  pub Begins-trans : (xs ys zs : List A) → Begins xs ys → Begins ys zs → Begins xs zs
  unfolding Begins
  Begins-trans xs ys zs a b = (a.0 ++ b.0, rw (b.1, a.1) (append_assoc xs (a.0) (b.0)))

pub record GrownFields (q r : QueryFields) : Type 0 where
  pub same_command : r.command ≡ q.command
  pub same_text : r.raw_sql ≡ q.raw_sql
  pub more_tables : Begins q.tables r.tables
  pub more_usages : Begins q.column_usage r.column_usage

unfoldable pub Grown : ParsedQuery → ParsedQuery → Type 0
Grown q r = GrownFields (fields q) (fields r)

pub fields_refl : (q : QueryFields) → GrownFields q q
fields_refl q = record {
  same_command = refl;
  same_text = refl;
  more_tables = Begins-refl q.tables;
  more_usages = Begins-refl q.column_usage;
}

pub fields_trans : (q r s : QueryFields) → GrownFields q r → GrownFields r s → GrownFields q s
fields_trans q r s a b = record {
  same_command = b.same_command ∙ a.same_command;
  same_text = b.same_text ∙ a.same_text;
  more_tables = Begins-trans _ _ _ a.more_tables b.more_tables;
  more_usages = Begins-trans _ _ _ a.more_usages b.more_usages;
}

pub Grown-refl : (q : ParsedQuery) → Grown q q
unfolding Grown
Grown-refl q = fields_refl (fields q)

pub Grown-trans : (q r s : ParsedQuery) → Grown q r → Grown r s → Grown q s
unfolding Grown
Grown-trans q r s a b = fields_trans (fields q) (fields r) (fields s) a b

pub on_fields-Grown :
    (f : QueryFields → QueryFields) (q : ParsedQuery)
    → ((k : QueryFields) → GrownFields k (f k))
    → Grown q (on_fields f q)
unfolding Grown on_fields fields
on_fields-Grown f (parsed k subs ctes m) h = h k

pub set_fields-Grown :
    (k : QueryFields) (q : ParsedQuery) → GrownFields (fields q) k → Grown q (set_fields k q)
unfolding Grown set_fields fields
set_fields-Grown k (parsed j subs ctes m) h = h

pub add_subqueries-Grown : (more : Subqueries) (q : ParsedQuery) → Grown q (add_subqueries more q)
unfolding Grown add_subqueries fields
add_subqueries-Grown more (parsed k subs ctes m) = fields_refl k

pub add_subquery-Grown : (alias : _) (query q : ParsedQuery) → Grown q (add_subquery alias query q)
unfolding add_subquery
add_subquery-Grown alias query q = add_subqueries-Grown _ q

pub add_ctes-Grown : (more : Ctes) (q : ParsedQuery) → Grown q (add_ctes more q)
unfolding Grown add_ctes fields
add_ctes-Grown more (parsed k subs ctes m) = fields_refl k

pub set_merge-Grown : (m : Merge) (q : ParsedQuery) → Grown q (set_merge m q)
unfolding Grown set_merge fields
set_merge-Grown m (parsed k subs ctes old) = fields_refl k

pub more_tables-Grown :
    (k : QueryFields) (ts : List TableRef) → GrownFields k (record k { tables = k.tables ++ ts })
more_tables-Grown k ts = record {
  same_command = refl;
  same_text = refl;
  more_tables = Begins-append k.tables ts;
  more_usages = Begins-refl k.column_usage;
}

pub more_usages-Grown :
    (k : QueryFields) (us : List ColumnUsage)
    → GrownFields k (record k { column_usage = k.column_usage ++ us })
more_usages-Grown k us = record {
  same_command = refl;
  same_text = refl;
  more_tables = Begins-refl k.tables;
  more_usages = Begins-append k.column_usage us;
}

-- Where the four fields are the same.
pub unchanged-Grown :
    (q r : QueryFields)
    → r.command ≡ q.command
    → r.raw_sql ≡ q.raw_sql
    → r.tables ≡ q.tables
    → r.column_usage ≡ q.column_usage
    → GrownFields q r
unfolding Begins
unchanged-Grown q r command text tables usages = record {
  same_command = command;
  same_text = text;
  more_tables = ([], tables ∙ sym (append-nil q.tables));
  more_usages = ([], usages ∙ sym (append-nil q.column_usage));
}

pub add_tables-Grown : (ts : List TableRef) (q : ParsedQuery) → Grown q (add_tables ts q)
unfolding add_tables
add_tables-Grown ts q = on_fields-Grown _ q (λ k. more_tables-Grown k ts)

-- A result that adds to a query, or an error.
unfoldable pub GrownResult : ParsedQuery → Result ParsedQuery → Type 0
GrownResult q (ok r) = Grown q r
GrownResult q (err e) = Unit

-- What adds to a result that adds to a query.
pub GrownResult-step :
    (q r : ParsedQuery) (s : Result ParsedQuery) → Grown q r → GrownResult r s → GrownResult q s
unfolding GrownResult
GrownResult-step q r (ok s) a b = Grown-trans q r s a b
GrownResult-step q r (err e) a b = tt

pub GrownResult-then :
    (f : ParsedQuery → ParsedQuery) (q : ParsedQuery) (s : Result ParsedQuery)
    → ((r : ParsedQuery) → Grown r (f r))
    → GrownResult q s
    → GrownResult q (s >>= λ r. ok (f r))
unfolding GrownResult
GrownResult-then f q (ok s) step h = Grown-trans q s (f s) h (step s)
GrownResult-then f q (err e) step h = tt
