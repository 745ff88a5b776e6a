-- ===== src/Strings/Search.antt =====
-- `strings.Index`, `strings.Contains`, `strings.LastIndex` and `strings.TrimPrefix`; a missing index
-- is `none`. The text that is looked for comes first.
use postgresparser.Prelude.{
  ℕ, suc, Bool, true, false, Option, none, some, [], ◌∷◌, Text, length, drop, is_empty,
  if◌then◌else◌,
}
use postgresparser.Strings.{has_prefix}

next_index : Option ℕ → Option ℕ
next_index none = none
next_index (some i) = some (suc i)

unfoldable pub index_of : Text → Text → Option ℕ
unfolding next_index
index_of needle [] = if is_empty needle then some 0 else none
index_of needle (c ∷ s) =
    let rest = index_of needle s in if has_prefix needle (c ∷ s) then some 0 else next_index rest

pub is_found : Option ℕ → Bool
is_found none = false
is_found (some i) = true

unfoldable pub contains_text : Text → Text → Bool
unfolding index_of is_found
contains_text needle s = is_found (index_of needle s)

-- a later place, or the one at hand
later : Bool → Option ℕ → Option ℕ
later here none = if here then some 0 else none
later here (some i) = some (suc i)

unfoldable pub last_index_of : Text → Text → Option ℕ
unfolding later
last_index_of needle [] = if is_empty needle then some 0 else none
last_index_of needle (c ∷ s) = later (has_prefix needle (c ∷ s)) (last_index_of needle s)

unfoldable pub trim_prefix : Text → Text → Text
trim_prefix prefix s = if has_prefix prefix s then drop (length prefix) s else s
