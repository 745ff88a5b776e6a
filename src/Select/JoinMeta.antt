-- ===== src/Select/JoinMeta.antt =====
-- `resolveJoinMeta` and `joinTypeFromCtx` of select.go.
pub mod Laws
use postgresparser.Prelude.{
  Bool, true, false, not, ◌&&◌, Option, none, some, List, [], ◌∷◌, ◌++◌, Text, codes, is_empty,
  if◌then◌else◌,
}
use postgresparser.Strings.{has_prefix}
use postgresparser.Tree.{TokenStream}
use postgresparser.Syntax.{
  Tree, terminal, rule, get_children, is_rule, is_token, has_token, trimmed_text,
}
use postgresparser.Syntax.Rules.{
  TokenType, open_paren, cross, natural, full, left, right, inner, join_type, join_qual, table_ref,
}

pub record JoinMeta : Type 0 where
  pub join_type : Text
  pub join_condition : Text

abbrev empty_meta : JoinMeta
empty_meta = record { join_type = []; join_condition = [] }

-- `pendingType`, `seenFirstTableRef` and `metas`
pub record JoinScan : Type 0 where
  pub pending : Text
  pub seen_first : Bool
  pub metas : List JoinMeta

-- `metas[len(metas)-1].joinCondition = ...`, where there is one
unfoldable pub set_last_condition : Text → List JoinMeta → List JoinMeta
set_last_condition text [] = []
set_last_condition text (m ∷ []) = record m { join_condition = text } ∷ []
set_last_condition text (m ∷ n ∷ ms) = m ∷ set_last_condition text (n ∷ ms)

after_type : Text → Text → Text
after_type pending jt = if has_prefix (codes "NATURAL") pending then codes "NATURAL " ++ jt else jt

joined : Text → JoinMeta
joined pending = record {
  join_type = if is_empty pending then codes "JOIN" else pending;
  join_condition = [];
}

-- The case of a `table_ref`; the first one in parentheses has no join.
unfoldable pub scan_table : Bool → JoinScan → JoinScan
unfolding joined
scan_table has_paren st =
    if has_paren && not st.seen_first
    then record { pending = []; seen_first = true; metas = st.metas ++ empty_meta ∷ [] }
    else record st { pending = []; metas = st.metas ++ joined st.pending ∷ [] }

module _ {A : Type 0} where
  unfoldable pub join_type_of : Tree A → Text
  join_type_of ctx =
      if has_token full ctx
      then codes "FULL"
      else if has_token left ctx
      then codes "LEFT"
      else if has_token right ctx
      then codes "RIGHT"
      else if has_token inner ctx
      then codes "INNER"
      else []

  scan_token : Tree A → JoinScan → JoinScan
  scan_token c st =
      if is_token cross c
      then record st { pending = codes "CROSS" }
      else if is_token natural c
      then record st { pending = codes "NATURAL" }
      else st

  -- One child.
  unfoldable pub scan_child : TokenStream → Bool → Tree A → JoinScan → JoinScan
  unfolding scan_token scan_table join_type_of after_type set_last_condition
  scan_child tokens has_paren c st =
      if is_rule table_ref c
      then scan_table has_paren st
      else if is_rule join_type c
      then record st { pending = after_type st.pending (join_type_of c) }
      else if is_rule join_qual c
      then record st { metas = set_last_condition (trimmed_text tokens c) st.metas }
      else scan_token c st

  unfoldable pub scan_children : TokenStream → Bool → List (Tree A) → JoinScan → JoinScan
  unfolding scan_child
  scan_children tokens has_paren [] st = st
  scan_children tokens has_paren (c ∷ cs) st =
      scan_children tokens has_paren cs (scan_child tokens has_paren c st)

  -- `resolveJoinMeta`
  unfoldable pub join_metas : TokenStream → Tree A → List JoinMeta
  unfolding scan_children
  join_metas tokens ref =
      (scan_children tokens (has_token open_paren ref) (get_children ref)
        (record { pending = []; seen_first = false; metas = [] })).metas
