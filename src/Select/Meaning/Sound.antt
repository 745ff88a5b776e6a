-- ===== src/Select/Meaning/Sound.antt =====
-- Contexts whose selects in parentheses project by adding.
use postgresparser.Prelude.{
  Bool, Bool-cases, inl, inr, Option, none, some, List, [], ◌∷◌, Text, codes, ℕ, zero, suc,
  get_elem?,
}
use postgresparser.Errors.{Result, ok, err, ◌>>=◌}
use postgresparser.Ir.{ParsedQuery}
use postgresparser.Query.Grown.{Grown, Grown-refl, Grown-trans, add_subquery-Grown}
use postgresparser.Syntax.{
  Trees, terminal, rule, leaf, branch, child, children, nth_child, find, find_all, get_children,
  is_rule, to_list,
}
use postgresparser.Syntax.Rules.{
  Rule, select_clause, simple_select_intersect, simple_select_primary, select_no_parens,
  select_with_parens,
}
use postgresparser.Usage.Collectors.{direct_subqueries}
use postgresparser.Select.Meaning.{
  Meaning, Context, value_of, required, primary_of, Resolved, resolved, unwrap, unwrap_first,
  or_else, resolve_from_parens, resolve_parens_of, resolve_by, resolve_select, add_found, add_each,
  expression_subqueries,
}

unfoldable pub Growing : Meaning → Type 0
Growing m = (q : ParsedQuery) → Grown q (m.project q)

unfoldable mutual
  pub Sound : Context → Type 0
  Sound (terminal t s) = Unit
  Sound (rule r i j a cs) = Growing a × AllSound cs

  pub AllSound : Trees Meaning → Type 0
  AllSound leaf = Unit
  AllSound (branch c cs) = Sound c × AllSound cs

unfoldable pub SoundOption : Option Context → Type 0
SoundOption none = Unit
SoundOption (some c) = Sound c

unfoldable pub SoundAll : List Context → Type 0
SoundAll [] = Unit
SoundAll (c ∷ cs) = Sound c × SoundAll cs

to_list-Sound : (cs : Trees Meaning) → AllSound cs → SoundAll (to_list cs)
unfolding Sound SoundAll
to_list-Sound leaf h = tt
to_list-Sound (branch c cs) h = (h.0, to_list-Sound cs (h.1))

get_children-Sound : (c : Context) → Sound c → SoundAll (get_children c)
unfolding Sound SoundAll
get_children-Sound (terminal t s) h = tt
get_children-Sound (rule r i j a cs) h = to_list-Sound cs (h.1)

find-Sound : (test : Context → Bool) (cs : List Context) → SoundAll cs → SoundOption (find test cs)
unfolding SoundAll SoundOption find
find-Sound test [] h = tt
find-Sound test (c ∷ cs) h = elim (Bool-cases (test c)) [
  | inl e ↦ rw e (h.0)
  | inr e ↦ rw e (find-Sound test cs (h.1))
]

find_all-Sound :
    (test : Context → Bool) (cs : List Context) → SoundAll cs → SoundAll (find_all test cs)
unfolding SoundAll find_all
find_all-Sound test [] h = tt
find_all-Sound test (c ∷ cs) h = elim (Bool-cases (test c)) [
  | inl e ↦ rw e (h.0, find_all-Sound test cs (h.1))
  | inr e ↦ rw e (find_all-Sound test cs (h.1))
]

nth-Sound : (cs : List Context) (i : ℕ) → SoundAll cs → SoundOption (get_elem? cs i)
unfolding SoundAll SoundOption
nth-Sound [] i h = tt
nth-Sound (c ∷ cs) zero h = h.0
nth-Sound (c ∷ cs) (suc i) h = nth-Sound cs i (h.1)

pub child-Sound : (r : Rule) (c : Context) → Sound c → SoundOption (child r c)
unfolding child
child-Sound r c h = find-Sound (is_rule r) (get_children c) (get_children-Sound c h)

pub nth_child-Sound : (r : Rule) (i : ℕ) (c : Context) → Sound c → SoundOption (nth_child r i c)
unfolding nth_child children
nth_child-Sound r i c h = nth-Sound _ i (find_all-Sound (is_rule r) _ (get_children-Sound c h))

unfoldable pub SoundResult : Result Context → Type 0
SoundResult (ok c) = Sound c
SoundResult (err e) = Unit

required-Sound :
    (message : Text) (c : Option Context) → SoundOption c → SoundResult (required message c)
unfolding SoundOption SoundResult required
required-Sound message none h = tt
required-Sound message (some c) h = h

bind-Sound :
    (r : Result Context) (f : Context → Result Context)
    → SoundResult r
    → ((c : Context) → Sound c → SoundResult (f c))
    → SoundResult (r >>= f)
unfolding SoundResult
bind-Sound (ok c) f h step = step c h
bind-Sound (err e) f h step = tt

primary_of-Sound : (snp : Context) → Sound snp → SoundResult (primary_of snp)
unfolding primary_of
primary_of-Sound snp h =
    bind-Sound (required (codes "missing select clause") (child select_clause snp)) _
      (required-Sound _ _ (child-Sound select_clause snp h))
      (λ clause k.
        bind-Sound
          (required (codes "missing simple select") (nth_child simple_select_intersect 0 clause)) _
          (required-Sound _ _ (nth_child-Sound simple_select_intersect 0 clause k))
          (λ simple l. required-Sound _ _ (nth_child-Sound simple_select_primary 0 simple l)))

-- Both contexts of a resolved select.
unfoldable pub SoundResolved : Result (Resolved Meaning) → Type 0
SoundResolved (ok r) = Sound r.simple × Sound r.select_ctx
SoundResolved (err e) = Unit

with_primary-Sound :
    (with_ctx : Option Context) (snp : Context) (p : Result Context)
    → Sound snp
    → SoundResult p
    → SoundResolved
        (p >>= λ simple. ok (record { with_ctx = with_ctx; simple = simple; select_ctx = snp }))
unfolding SoundResult SoundResolved
with_primary-Sound with_ctx snp (ok simple) h k = (k, h)
with_primary-Sound with_ctx snp (err e) h k = tt

resolved-Sound :
    (with_ctx : Option Context) (snp : Context) → Sound snp → SoundResolved (resolved with_ctx snp)
unfolding resolved
resolved-Sound with_ctx snp h =
    with_primary-Sound with_ctx snp (primary_of snp) h (primary_of-Sound snp h)

or_else-Sound : (a b : Option Context) → SoundOption a → SoundOption b → SoundOption (or_else a b)
unfolding or_else SoundOption
or_else-Sound none b h k = k
or_else-Sound (some c) b h k = h

mutual
  unfolding unwrap unwrap_first Sound SoundOption

  pub unwrap-Sound : (c : Context) → Sound c → SoundOption (unwrap c)
  unwrap-Sound (terminal t s) h = tt
  unwrap-Sound (rule r i j a cs) h =
      or_else-Sound _ _ (child-Sound select_no_parens (rule r i j a cs) h)
        (unwrap_first-Sound cs (h.1))

  pub unwrap_first-Sound : (cs : Trees Meaning) → AllSound cs → SoundOption (unwrap_first cs)
  unwrap_first-Sound leaf h = tt
  unwrap_first-Sound (branch c cs) h = elim (Bool-cases (is_rule select_with_parens c)) [
    | inl e ↦ rw e (unwrap-Sound c (h.0))
    | inr e ↦ rw e (unwrap_first-Sound cs (h.1))
  ]

resolve_unwrapped-Sound :
    (snp : Option Context)
    → SoundOption snp
    → SoundResolved
        (required (codes "unable to unwrap parenthesized select") snp >>= λ c. resolved none c)
unfolding required SoundOption SoundResolved
resolve_unwrapped-Sound none h = tt
resolve_unwrapped-Sound (some snp) h = resolved-Sound none snp h

pub resolve_from_parens-Sound :
    (swp : Context) → Sound swp → SoundResolved (resolve_from_parens swp)
unfolding resolve_from_parens
resolve_from_parens-Sound swp h = resolve_unwrapped-Sound (unwrap swp) (unwrap-Sound swp h)

resolve_parens-Sound :
    (swp : Option Context)
    → SoundOption swp
    → SoundResolved
        (required (codes "unable to resolve select statement") swp >>= λ c. resolve_from_parens c)
unfolding required SoundOption SoundResolved
resolve_parens-Sound none h = tt
resolve_parens-Sound (some swp) h = resolve_from_parens-Sound swp h

resolve_by-Sound :
    (c : Context) (snp : Option Context)
    → Sound c
    → SoundOption snp
    → SoundResolved (resolve_by c snp)
unfolding resolve_by resolve_parens_of SoundOption
resolve_by-Sound c (some snp) h k = resolved-Sound _ snp k
resolve_by-Sound c none h k = resolve_parens-Sound _ (child-Sound select_with_parens c h)

pub resolve_select-Sound : (c : Context) → Sound c → SoundResolved (resolve_select c)
unfolding resolve_select
resolve_select-Sound c h = resolve_by-Sound c _ h (child-Sound select_no_parens c h)

-- Subqueries of an expression are added beside the four fields.
add_found-Grown :
    (alias : Text) (r : Result ParsedQuery) (q : ParsedQuery) → Grown q (add_found alias r q)
unfolding add_found
add_found-Grown alias (err e) q = Grown-refl q
add_found-Grown alias (ok query) q = add_subquery-Grown alias query q

add_each-Grown : (cs : List Context) (q : ParsedQuery) → Grown q (add_each cs q)
unfolding add_each
add_each-Grown [] q = Grown-refl q
add_each-Grown (c ∷ cs) q =
    Grown-trans q (add_found [] (value_of c).query q) _ (add_found-Grown [] (value_of c).query q)
      (add_each-Grown cs _)

pub expression_subqueries-Grown :
    (c : Context) (q : ParsedQuery) → Grown q (expression_subqueries c q)
unfolding expression_subqueries
expression_subqueries-Grown c q = add_each-Grown (direct_subqueries c) q
