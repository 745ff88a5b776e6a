-- ===== src/Analysis/Joins/Laws.antt =====
-- The parent of a relationship is the side of the primary key, whichever side that is.
use postgresparser.Prelude.{◌≡◌, refl, true, false, Option, none, some, Text, Bool-cases, inl, inr}
use postgresparser.Strings.{Unicode}
use postgresparser.Analysis.Joins.{
  JoinRelationship, SchemaMap, is_column_primary_key, infer_parent_child,
}

module _ ⦃u : Unicode⦄ (schema : SchemaMap) where
  -- The parent column is a primary key and the child column is none.
  abbrev pub IsKeyed : Option JoinRelationship → Type 0
  IsKeyed none = Unit
  IsKeyed (some rel) =
      (is_column_primary_key rel.parent_table rel.parent_column schema ≡ true)
      × (is_column_primary_key rel.child_table rel.child_column schema ≡ false)

module _ ⦃u : Unicode⦄ (lt lc rt rc : Text) (schema : SchemaMap) where
  -- The relationship that a join of two columns gives does not depend on which of them stands on the
  -- left.
  pub infer_parent_child_comm :
      infer_parent_child lt lc rt rc schema ≡ infer_parent_child rt rc lt lc schema
  unfolding infer_parent_child
  infer_parent_child_comm = elim (Bool-cases (is_column_primary_key lt lc schema)) [
    | inl l ↦ elim (Bool-cases (is_column_primary_key rt rc schema)) [
      | inl r ↦ rw (l, r) refl
      | inr r ↦ rw (l, r) refl
    ]
    | inr l ↦ elim (Bool-cases (is_column_primary_key rt rc schema)) [
      | inl r ↦ rw (l, r) refl
      | inr r ↦ rw (l, r) refl
    ]
  ]

  -- Where a join of two columns gives a relationship, its parent column is a primary key of the
  -- schema and its child column is not.
  pub infer_parent_child-IsKeyed : IsKeyed schema (infer_parent_child lt lc rt rc schema)
  unfolding infer_parent_child
  infer_parent_child-IsKeyed = elim (Bool-cases (is_column_primary_key lt lc schema)) [
    | inl l ↦ elim (Bool-cases (is_column_primary_key rt rc schema)) [
      | inl r ↦ rw (l, r) tt
      | inr r ↦ rw (l, r) (l, r)
    ]
    | inr l ↦ elim (Bool-cases (is_column_primary_key rt rc schema)) [
      | inl r ↦ rw (l, r) (r, l)
      | inr r ↦ rw (l, r) tt
    ]
  ]
