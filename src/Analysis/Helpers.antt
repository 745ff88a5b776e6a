-- ===== src/Analysis/Helpers.antt =====
-- analysis/helpers.go. `SQLTable`, `SQLColumnUsage` and `SQLLimit` have the fields of `TableRef`,
-- `ColumnUsage` and `LimitClause`, and `SQLAnalysis` is read through the fields of the query that
-- it is made from.
pub mod Laws
use postgresparser.Prelude.{
  ℕ, suc, ◌+◌, Bool, true, false, not, ◌&&◌, ◌||◌, Option, none, some, List, [], ◌∷◌, ◌++◌, map,
  Text, codes, is_empty, length, keep, dedup, insert, lookup, text_eq, ltb, ◌==◌, if◌then◌else◌,
}
use postgresparser.Strings.{Unicode, to_lower, to_upper, equal_fold, trim_space}
use postgresparser.Strings
use postgresparser.Strings.Search.{trim_prefix}
use postgresparser.Strings.Decimal.{ℤ, pos, atoi}
use postgresparser.Names.{trim_quotes}
use postgresparser.Ir.{
  TableType, base, TableRef, ColumnUsageType, filter, join, projection, group_by, order_by,
  returning, window_partition, window_order, dml_set, upsert_target, upsert_set, merge_target,
  merge_source, merge_set, merge_insert, unknown, ColumnUsage, LimitClause, QueryFields,
}
use postgresparser.Usage.Using.{is_base}

or_public : Text → Text
or_public schema = if is_empty schema then codes "public" else schema

clean_table : TableRef → TableRef
unfolding or_public
clean_table t = record t {
  schema = or_public (trim_quotes t.schema);
  name = trim_quotes t.name;
  alias = trim_quotes t.alias;
  raw = [];
}

-- The base tables, cleaned, with repetitions.
base_refs : List TableRef → List TableRef
unfolding clean_table
base_refs [] = []
base_refs (t ∷ ts) =
    let rest = base_refs ts in if is_base t.table_type then clean_table t ∷ rest else rest

role_index : ColumnUsageType → ℕ
role_index filter = 0
role_index join = 1
role_index projection = 2
role_index group_by = 3
role_index order_by = 4
role_index returning = 5
role_index window_partition = 6
role_index window_order = 7
role_index dml_set = 8
role_index upsert_target = 9
role_index upsert_set = 10
role_index merge_target = 11
role_index merge_source = 12
role_index merge_set = 13
role_index merge_insert = 14
role_index unknown = 15

pub has_role : List ColumnUsageType → ColumnUsageType → Bool
unfolding role_index
has_role [] role = false
has_role (r ∷ rs) role = role_index r == role_index role || has_role rs role

any_role : List ColumnUsageType → Bool
any_role [] = true
any_role (r ∷ rs) = false

-- `UsageByRoles`; no role stands for all of them
unfoldable pub usage_by_roles : List ColumnUsageType → QueryFields → List ColumnUsage
unfolding has_role any_role
usage_by_roles roles a =
    keep (λ usage. any_role roles || has_role roles usage.usage_type) a.column_usage

-- `tableAliasOrName`
unfoldable pub table_alias_or_name : TableRef → Text
table_alias_or_name t = if is_empty t.alias then t.name else t.alias

-- `matchesAlias`
unfoldable pub matches_alias : Text → Text → Bool → Bool
matches_alias candidate target single =
    if is_empty target
    then single && is_empty candidate
    else text_eq candidate target || (is_empty candidate && single)

single_name : List TableRef → Text
unfolding table_alias_or_name
single_name (t ∷ []) = table_alias_or_name t
single_name _ = []

pub same_text : Text → Text
same_text s = s

-- The order of `sort.Strings`, on code points.
pub text_le : Text → Text → Bool
text_le [] t = true
text_le (c ∷ s) [] = false
text_le (c ∷ s) (d ∷ t) = ltb c d || (c == d && text_le s t)

insert_sorted : Text → List Text → List Text
unfolding text_le
insert_sorted s [] = s ∷ []
insert_sorted s (t ∷ ts) =
    let rest = insert_sorted s ts in if text_le s t then s ∷ t ∷ ts else t ∷ rest

unfoldable pub sort_texts : List Text → List Text
unfolding insert_sorted
sort_texts [] = []
sort_texts (s ∷ ss) = insert_sorted s (sort_texts ss)

full_name : TableRef → Text
full_name t = t.schema ++ codes "." ++ t.name

count_of : Option ℕ → ℕ
count_of none = 0
count_of (some n) = n

-- `m[k]`, and `m[k]++`
unfoldable pub stat : Text → List (Text × ℕ) → ℕ
unfolding count_of lookup
stat k m = count_of (lookup k m)

unfoldable pub bump : Text → List (Text × ℕ) → List (Text × ℕ)
unfolding insert stat
bump k m = insert k (suc (stat k m)) m

int_or_zero : Option ℤ → ℤ
int_or_zero none = pos 0
int_or_zero (some n) = n

module _ ⦃u : Unicode⦄ where
  unfoldable pub base_key : TableRef → Text
  base_key t = to_lower t.schema ++ codes "." ++ to_lower t.name ++ codes "|" ++ to_lower t.alias

  -- `BaseTables`
  unfoldable pub base_tables : QueryFields → List TableRef
  unfolding base_refs
  base_tables a = dedup base_key [] (base_refs a.tables)

  wanted_alias : Text → List TableRef → Text
  unfolding single_name
  wanted_alias alias tables =
      let wanted = to_lower (trim_space alias) in
      if is_empty wanted && length tables == 1 then to_lower (single_name tables) else wanted

  -- The names of the columns that match, with repetitions.
  matching : Text → Bool → List ColumnUsage → List Text
  unfolding matches_alias
  matching wanted single [] = []
  matching wanted single (usage ∷ usages) =
      let rest = matching wanted single usages in
      let name = trim_space usage.column in
      if matches_alias (to_lower (trim_space usage.table_alias)) wanted single
        && not (is_empty name)
      then name ∷ rest
      else rest

  -- `ColumnsForTable`
  unfoldable pub columns_for_table : Text → List ColumnUsageType → QueryFields → List Text
  unfolding matching wanted_alias base_tables usage_by_roles same_text
  columns_for_table alias roles a =
      let tables = base_tables a in
      dedup same_text []
        (matching (wanted_alias alias tables) (length tables == 1) (usage_by_roles roles a))

  unfoldable pub usage_alias : ColumnUsage → Text
  usage_alias usage = to_lower (trim_space usage.table_alias)

  unfoldable pub count_usages : List ColumnUsage → List (Text × ℕ) → List (Text × ℕ)
  unfolding bump usage_alias
  count_usages [] stats = stats
  count_usages (usage ∷ usages) stats = count_usages usages (bump (usage_alias usage) stats)

  -- `UsageStatsByTable`
  unfoldable pub usage_stats_by_table : List ColumnUsageType → QueryFields → List (Text × ℕ)
  unfolding count_usages usage_by_roles
  usage_stats_by_table roles a = count_usages (usage_by_roles roles a) []

  limit_number : Text → ℤ
  unfolding int_or_zero atoi
  limit_number s = if is_empty s || equal_fold s (codes "ALL") then pos 0 else int_or_zero (atoi s)

  limit_of : Option LimitClause → ℤ
  unfolding limit_number
  limit_of none = pos 0
  limit_of (some l) =
      limit_number (trim_space (trim_prefix (codes "LIMIT ") (to_upper (trim_space l.limit))))

  -- `LimitValue`
  unfoldable pub limit_value : QueryFields → ℤ
  unfolding limit_of
  limit_value a = limit_of a.limit

  -- `EntityNameFromTables`
  unfoldable pub entity_name : QueryFields → Text
  unfolding base_tables full_name same_text sort_texts
  entity_name a =
      Strings.join (codes ",") (sort_texts (dedup same_text [] (map full_name (base_tables a))))
