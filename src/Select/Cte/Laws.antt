-- ===== src/Select/Cte/Laws.antt =====
-- Every CTE of a WITH clause is there, with a name.
use postgresparser.Prelude.{
  ℕ, suc, ◌+◌, ◌≡◌, refl, ap, false, Option, none, some, List, [], ◌∷◌, Text, is_empty, length,
  arith,
}
use postgresparser.Ir.{CteFields, QueryPointer, Ctes, no_ctes, cte_ref}
use postgresparser.Tree.{TokenStream}
use postgresparser.Query.{append_ctes}
use postgresparser.Syntax.{child, children}
use postgresparser.Syntax.Rules.{cte_list, common_table_expr, preparablestmt}
use postgresparser.Select.Meaning.{Context}
use postgresparser.Select.Cte.{
  Extracted, cte_count, cte_name, single_cte, cte_fields, add_cte, extract_each, listed,
  extract_ctes,
}

pub AllNamed : Ctes → Type 0
AllNamed no_ctes = Unit
AllNamed (cte_ref c q rest) = (is_empty c.name ≡ false) × AllNamed rest

append_one_count :
    (cs : Ctes) (c : CteFields) (q : QueryPointer)
    → cte_count (append_ctes cs (cte_ref c q no_ctes)) ≡ suc (cte_count cs)
unfolding append_ctes cte_count
append_one_count no_ctes c q = refl
append_one_count (cte_ref d p rest) c q = ap suc (append_one_count rest c q)

append_one_named :
    (cs : Ctes) (c : CteFields) (q : QueryPointer)
    → AllNamed cs
    → is_empty c.name ≡ false
    → AllNamed (append_ctes cs (cte_ref c q no_ctes))
unfolding append_ctes AllNamed
append_one_named no_ctes c q h k = (k, tt)
append_one_named (cte_ref d p rest) c q h k = (h.0, append_one_named rest c q (h.1) k)

cte_name_not_empty : (written : Text) (n : ℕ) → is_empty (cte_name written n) ≡ false
unfolding cte_name
cte_name_not_empty [] n = refl
cte_name_not_empty (c ∷ written) n = refl

module _ (tokens : TokenStream) where
  add_cte_count :
      (c : CteFields) (stmt : Option Context) (found : Extracted)
      → cte_count (add_cte tokens c stmt found).ctes ≡ suc (cte_count found.ctes)
  unfolding add_cte single_cte
  add_cte_count c none found = append_one_count found.ctes c _
  add_cte_count c (some stmt) found = append_one_count found.ctes c _

  add_cte_named :
      (c : CteFields) (stmt : Option Context) (found : Extracted)
      → AllNamed found.ctes
      → is_empty c.name ≡ false
      → AllNamed (add_cte tokens c stmt found).ctes
  unfolding add_cte single_cte
  add_cte_named c none found h k = append_one_named found.ctes c _ h k
  add_cte_named c (some stmt) found h k = append_one_named found.ctes c _ h k

  extract_each_count :
      (ctxs : List Context) (found : Extracted)
      → cte_count (extract_each tokens ctxs found).ctes ≡ cte_count found.ctes + length ctxs
  unfolding extract_each
  extract_each_count [] found = omega arith
  extract_each_count (ctx ∷ ctxs) found =
      let next =
        add_cte tokens (cte_fields tokens ctx (cte_count found.ctes)) (child preparablestmt ctx)
          found in
      omega (
        arith,
        extract_each_count ctxs next,
        add_cte_count (cte_fields tokens ctx (cte_count found.ctes)) (child preparablestmt ctx)
            found,
      )

  extract_each_named :
      (ctxs : List Context) (found : Extracted)
      → AllNamed found.ctes
      → AllNamed (extract_each tokens ctxs found).ctes
  unfolding extract_each cte_fields
  extract_each_named [] found h = h
  extract_each_named (ctx ∷ ctxs) found h = extract_each_named ctxs _ (
      add_cte_named (cte_fields tokens ctx (cte_count found.ctes)) (child preparablestmt ctx) found
        h (cte_name_not_empty _ _))

  -- Where a WITH clause has a list of CTEs, as many CTEs are extracted as the list holds, and each
  -- has a name that is not empty.
  pub extract_ctes-AllNamed :
      (with_ctx list : Context)
      → child cte_list with_ctx ≡ some list
      → (cte_count (extract_ctes tokens with_ctx).ctes ≡ length (children common_table_expr list))
        × AllNamed (extract_ctes tokens with_ctx).ctes
  unfolding extract_ctes listed AllNamed
  extract_ctes-AllNamed with_ctx list h = rw h (
    omega (
      arith,
      extract_each_count (children common_table_expr list) (record { ctes = no_ctes; tables = [] }),
    ),
    extract_each_named (children common_table_expr list) (record { ctes = no_ctes; tables = [] })
        tt,
  )
