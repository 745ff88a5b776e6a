-- ===== src/Analysis/Helpers/Laws.antt =====
-- What the helpers of an analysis promise.
use postgresparser.Prelude.{
  ℕ, suc, ◌+◌, ◌≡◌, refl, ap, ◌∙◌, Bool, true, false, not, ◌&&◌, ◌||◌, keep, keep_cons, List, [],
  ◌∷◌, map, Text, is_empty, All, Fresh, dedup-Fresh, dedup-All, lookup, insert, text_eq,
  text_eq_iff, Bool-cases, inl, inr, if◌then◌else◌, arith,
}
use postgresparser.Strings.{Unicode, to_lower, trim_space}
use postgresparser.Ir.{TableRef, ColumnUsageType, ColumnUsage, QueryFields}
use postgresparser.Usage.Using.{is_base}
use postgresparser.Analysis.Helpers.{
  or_public, clean_table, base_refs, base_key, base_tables, any_role, has_role, usage_by_roles,
  matches_alias, matching, same_text, columns_for_table, stat, bump, count_of, usage_alias,
  count_usages, usage_stats_by_table,
}

-- How often an alias stands among usages.
pub times : ⦃u : Unicode⦄ → Text → List ColumnUsage → ℕ
times alias [] = 0
times alias (usage ∷ usages) =
    let rest = times alias usages in if text_eq (usage_alias usage) alias then suc rest else rest

stat-bump :
    (k j : Text) (m : List (Text × ℕ))
    → stat j (bump k m) ≡ (if text_eq k j then suc (stat k m) else stat j m)
unfolding stat bump lookup insert count_of
stat-bump k j m = elim (Bool-cases (text_eq k j)) [ inl h ↦ rw h refl | inr h ↦ rw h refl ]

bumped :
    (k j : Text) (m : List (Text × ℕ)) (n : ℕ)
    → text_eq k j ≡ true
    → stat j (bump k m) + n ≡ stat j m + suc n
bumped k j m n h = ap (λ x. x + n) (stat-bump k j m) ∙ rw (h, (text_eq_iff k j).0 h) (omega arith)

kept :
    (k j : Text) (m : List (Text × ℕ)) (n : ℕ)
    → text_eq k j ≡ false
    → stat j (bump k m) + n ≡ stat j m + n
kept k j m n h = ap (λ x. x + n) (stat-bump k j m) ∙ rw h refl

or_public_not_empty : (schema : Text) → is_empty (or_public schema) ≡ false
unfolding or_public
or_public_not_empty [] = refl
or_public_not_empty (c ∷ schema) = refl

right_not : (a b : Bool) → (a && not b) ≡ true → b ≡ false
right_not a b h = ground arith

module _ ⦃u : Unicode⦄ where
  count_usages-times :
      (alias : Text) (usages : List ColumnUsage) (m : List (Text × ℕ))
      → stat alias (count_usages usages m) ≡ stat alias m + times alias usages
  unfolding count_usages times
  count_usages-times alias [] m = omega arith
  count_usages-times alias (usage ∷ usages) m =
      elim (Bool-cases (text_eq (usage_alias usage) alias)) [
        | inl h ↦ rw h (
            count_usages-times alias usages (bump (usage_alias usage) m)
            ∙ bumped (usage_alias usage) alias m _ h)
        | inr h ↦ rw h (
            count_usages-times alias usages (bump (usage_alias usage) m)
            ∙ kept (usage_alias usage) alias m _ h)
      ]

  -- One of the roles; no role stands for all of them.
  abbrev pub is_wanted : List ColumnUsageType → ColumnUsageType → Bool
  is_wanted [] role = true
  is_wanted (r ∷ rs) role = has_role (r ∷ rs) role

  any_role-is_wanted :
      (roles : List ColumnUsageType) (role : ColumnUsageType)
      → (any_role roles || has_role roles role) ≡ is_wanted roles role
  unfolding any_role
  any_role-is_wanted [] role = refl
  any_role-is_wanted (r ∷ rs) role = refl

  -- How often an alias, trimmed and in lower case, stands among the usages with one of the roles.
  abbrev pub times_in : Text → List ColumnUsageType → List ColumnUsage → ℕ
  times_in alias roles [] = 0
  times_in alias roles (usage ∷ usages) =
      let rest = times_in alias roles usages in
      if is_wanted roles usage.usage_type && text_eq (to_lower (trim_space usage.table_alias)) alias
      then suc rest
      else rest

  times-usage_by_roles :
      (alias : Text) (roles : List ColumnUsageType) (usages : List ColumnUsage)
      → times alias
          (keep (λ (usage : ColumnUsage). any_role roles || has_role roles usage.usage_type) usages)
        ≡ times_in alias roles usages
  unfolding times keep usage_alias
  times-usage_by_roles alias roles [] = refl
  times-usage_by_roles alias roles (usage ∷ usages) =
      elim (Bool-cases (is_wanted roles usage.usage_type)) [
        | inl h ↦
            rw
              (
                keep_cons,
                any_role-is_wanted roles usage.usage_type,
                h,
                times-usage_by_roles alias roles usages,
              )
              refl
        | inr h ↦
            rw
              (
                keep_cons,
                any_role-is_wanted roles usage.usage_type,
                h,
                times-usage_by_roles alias roles usages,
              )
              refl
      ]

  nothing_before : (alias : Text) (n : ℕ) → stat alias [] + n ≡ n
  unfolding stat lookup count_of
  nothing_before alias n = omega arith

  -- For each alias, UsageStatsByTable gives the number of column usages with one of the roles, or
  -- with any role where none is given, whose alias, trimmed and in lower case, is that alias; an
  -- alias without an entry counts as 0.
  pub usage_stats_by_table-times :
      (alias : Text) (roles : List ColumnUsageType) (a : QueryFields)
      → stat alias (usage_stats_by_table roles a) ≡ times_in alias roles a.column_usage
  unfolding usage_stats_by_table usage_by_roles
  usage_stats_by_table-times alias roles a =
      count_usages-times alias (usage_by_roles roles a) []
      ∙ nothing_before alias (times alias (usage_by_roles roles a))
      ∙ times-usage_by_roles alias roles a.column_usage

  -- A base table with a schema.
  pub IsBase : TableRef → Type 0
  IsBase t = (is_base t.table_type ≡ true) × (is_empty t.schema ≡ false)

  clean-IsBase : (t : TableRef) → is_base t.table_type ≡ true → IsBase (clean_table t)
  unfolding clean_table IsBase
  clean-IsBase t h = (h, or_public_not_empty _)

  refs-IsBase : (ts : List TableRef) → All IsBase (base_refs ts)
  unfolding base_refs
  refs-IsBase [] = tt
  refs-IsBase (t ∷ ts) = elim (Bool-cases (is_base t.table_type)) [
    | inl h ↦ rw h (clean-IsBase t h, refs-IsBase ts)
    | inr h ↦ rw h (refs-IsBase ts)
  ]

  -- The base tables of an analysis are pairwise different in schema, name and alias as compared in
  -- lower case, and each is a base table with a schema that is not empty.
  pub base_tables-Fresh :
      (a : QueryFields) → Fresh [] (map base_key (base_tables a)) × All IsBase (base_tables a)
  unfolding base_tables
  base_tables-Fresh a = (
    dedup-Fresh base_key [] (base_refs a.tables),
    dedup-All base_key IsBase [] (base_refs a.tables) (refs-IsBase a.tables),
  )

  matching-All :
      (wanted : Text) (single : Bool) (usages : List ColumnUsage)
      → All (λ name. is_empty name ≡ false) (matching wanted single usages)
  unfolding matching
  matching-All wanted single [] = tt
  matching-All wanted single (usage ∷ usages) =
      elim (Bool-cases (
        matches_alias (to_lower (trim_space usage.table_alias)) wanted single
        && not (is_empty (trim_space usage.column)))) [
          | inl h ↦ rw h (right_not _ _ h, matching-All wanted single usages)
          | inr h ↦ rw h (matching-All wanted single usages)
        ]

  pub columns_for_table-Fresh :
      (alias : Text) (roles : List ColumnUsageType) (a : QueryFields)
      → Fresh [] (map same_text (columns_for_table alias roles a))
        × All (λ name. is_empty name ≡ false) (columns_for_table alias roles a)
  unfolding columns_for_table
  columns_for_table-Fresh alias roles a = (
    dedup-Fresh same_text [] _,
    dedup-All same_text (λ name. is_empty name ≡ false) [] _
        (matching-All _ _ (usage_by_roles roles a)),
  )
