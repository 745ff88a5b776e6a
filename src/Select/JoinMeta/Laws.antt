-- ===== src/Select/JoinMeta/Laws.antt =====
-- The metadata of the joins stand beside the tables that are joined.
use postgresparser.Prelude.{
  ℕ, suc, ◌+◌, ◌≡◌, refl, ap, Bool, true, false, not, ◌&&◌, List, [], ◌∷◌, Text, length,
  length-append, Bool-cases, inl, inr, arith,
}
use postgresparser.Tree.{TokenStream}
use postgresparser.Syntax.{Tree, is_rule, get_children, find_all, children, trimmed_text}
use postgresparser.Syntax.Rules.{join_type, join_qual, table_ref}
use postgresparser.Select.JoinMeta.{
  JoinMeta, JoinScan, set_last_condition, scan_table, scan_token, scan_child, scan_children,
  join_metas,
}

length-set_last_condition :
    (text : Text) (ms : List JoinMeta) → length (set_last_condition text ms) ≡ length ms
unfolding set_last_condition
length-set_last_condition text [] = refl
length-set_last_condition text (m ∷ []) = refl
length-set_last_condition text (m ∷ n ∷ ms) = ap suc (length-set_last_condition text (n ∷ ms))

count : Bool → ℕ
count true = 1
count false = 0

length-scan_table :
    (p : Bool) (st : JoinScan) → length (scan_table p st).metas ≡ length st.metas + 1
unfolding scan_table
length-scan_table p st = elim (Bool-cases (p && not st.seen_first)) [
  | inl h ↦ rw h (length-append st.metas _)
  | inr h ↦ rw h (length-append st.metas _)
]

module _ {A : Type 0} (tokens : TokenStream) (p : Bool) where
  scan_token_metas : (c : Tree A) (st : JoinScan) → (scan_token c st).metas ≡ st.metas
  unfolding scan_token
  scan_token_metas c st = ground arith

  length-scan_child :
      (c : Tree A) (st : JoinScan)
      → length (scan_child tokens p c st).metas ≡ length st.metas + count (is_rule table_ref c)
  unfolding scan_child count
  length-scan_child c st = elim (Bool-cases (is_rule table_ref c)) [
    | inl h ↦ rw h (length-scan_table p st)
    | inr h ↦ elim (Bool-cases (is_rule join_type c)) [
      | inl k ↦ rw (h, k) (omega arith)
      | inr k ↦ elim (Bool-cases (is_rule join_qual c)) [
        | inl l ↦
            rw (h, k, l) (omega (arith, length-set_last_condition (trimmed_text tokens c) st.metas))
        | inr l ↦ rw (h, k, l, scan_token_metas c st) (omega arith)
      ]
    ]
  ]

  length-scan_children :
      (cs : List (Tree A)) (st : JoinScan)
      → length (scan_children tokens p cs st).metas
        ≡ length st.metas + length (find_all (is_rule table_ref) cs)
  unfolding scan_children find_all count
  length-scan_children [] st = omega arith
  length-scan_children (c ∷ cs) st = elim (Bool-cases (is_rule table_ref c)) [
    | inl h ↦ rw h omega (
      arith,
      length-scan_children cs (scan_child tokens p c st),
      ap count h,
      length-scan_child c st,
    )
    | inr h ↦ rw h omega (
      arith,
      length-scan_children cs (scan_child tokens p c st),
      ap count h,
      length-scan_child c st,
    )
  ]

module _ {A : Type 0} where
  -- The metadata of the joins of a table reference are as many as the table references among its
  -- children.
  pub length-join_metas :
      (tokens : TokenStream) (ref : Tree A)
      → length (join_metas tokens ref) ≡ length (children table_ref ref)
  unfolding join_metas children
  length-join_metas tokens ref = omega (
    arith,
    length-scan_children tokens _ (get_children ref)
        (record { pending = []; seen_first = false; metas = [] }),
  )
