-- ===== src/Ddl/Alter/Columns.antt =====
-- Which columns `collectAlterTableConstraintColumns` walks over, as membership.
use postgresparser.Prelude.{
  ◌≡◌, refl, Bool-cases, true, false, Option, none, some, List, [], ◌∷◌, ◌++◌, map, Text, contains,
  All, arith, ◌⊎◌, inl, inr, is_empty, text_eq_self,
}
use postgresparser.Ir.{DdlPrimaryKey, DdlForeignKey}
use postgresparser.Ddl.Alter.{key_columns, foreign_columns, named_only}

-- A text stands in a list of texts.
abbrev pub IsIn : Text → List Text → Type 0
IsIn t [] = ⊥
IsIn t (s ∷ ss) = (t ≡ s) ⊎ IsIn t ss

-- A column stands in one of the foreign keys.
abbrev pub IsReferencing : Text → List DdlForeignKey → Type 0
IsReferencing col [] = ⊥
IsReferencing col (fk ∷ fks) = IsIn col fk.columns ⊎ IsReferencing col fks

-- A column of the primary key or of a foreign key.
abbrev pub IsConstrained : Option DdlPrimaryKey → List DdlForeignKey → Text → Type 0
IsConstrained none fks col = IsReferencing col fks
IsConstrained (some pk) fks col = IsIn col pk.columns ⊎ IsReferencing col fks

IsIn-append_left : (t : Text) (xs ys : List Text) → IsIn t xs → IsIn t (xs ++ ys)
IsIn-append_left t [] ys h = elim h [ ]
IsIn-append_left t (x ∷ xs) ys (inl h) = inl h
IsIn-append_left t (x ∷ xs) ys (inr h) = inr (IsIn-append_left t xs ys h)

IsIn-append_right : (t : Text) (xs ys : List Text) → IsIn t ys → IsIn t (xs ++ ys)
IsIn-append_right t [] ys h = h
IsIn-append_right t (x ∷ xs) ys h = inr (IsIn-append_right t xs ys h)

foreign_columns-IsIn :
    (col : Text) (fks : List DdlForeignKey) → IsReferencing col fks → IsIn col (foreign_columns fks)
unfolding foreign_columns
foreign_columns-IsIn col [] h = elim h [ ]
foreign_columns-IsIn col (fk ∷ fks) (inl h) =
    IsIn-append_left col fk.columns (foreign_columns fks) h
foreign_columns-IsIn col (fk ∷ fks) (inr h) =
    IsIn-append_right col fk.columns (foreign_columns fks) (foreign_columns-IsIn col fks h)

pub listed_columns-IsIn :
    (col : Text) (pk : Option DdlPrimaryKey) (fks : List DdlForeignKey)
    → IsConstrained pk fks col
    → IsIn col (key_columns pk ++ foreign_columns fks)
unfolding key_columns
listed_columns-IsIn col none fks h = foreign_columns-IsIn col fks h
listed_columns-IsIn col (some pk) fks (inl h) =
    IsIn-append_left col pk.columns (foreign_columns fks) h
listed_columns-IsIn col (some pk) fks (inr h) =
    IsIn-append_right col pk.columns (foreign_columns fks) (foreign_columns-IsIn col fks h)

pub named_only-IsIn :
    (col : Text) (cols : List Text)
    → is_empty col ≡ false
    → IsIn col cols
    → IsIn col (named_only cols)
unfolding named_only
named_only-IsIn col [] h k = elim k [ ]
named_only-IsIn col (c ∷ cols) h (inl e) = rw (← e, h) (inl refl)
named_only-IsIn col (c ∷ cols) h (inr k) = elim (Bool-cases (is_empty c)) [
  | inl t ↦ rw t (named_only-IsIn col cols h k)
  | inr f ↦ rw f (inr (named_only-IsIn col cols h k))
]

-- What can be reported: a named column of the primary key or of a foreign key.
abbrev pub IsNamedIn : Option DdlPrimaryKey → List DdlForeignKey → Text → Type 0
IsNamedIn pk fks col = (is_empty col ≡ false) × IsConstrained pk fks col

pub All-IsIn : {P : Text → Type 0} (xs : List Text) → ((t : Text) → IsIn t xs → P t) → All P xs
All-IsIn [] f = tt
All-IsIn (x ∷ xs) f = (f x (inl refl), All-IsIn xs (λ t h. f t (inr h)))

append-IsIn : (t : Text) (xs ys : List Text) → IsIn t (xs ++ ys) → IsIn t xs ⊎ IsIn t ys
append-IsIn t [] ys h = inr h
append-IsIn t (x ∷ xs) ys (inl h) = inl (inl h)
append-IsIn t (x ∷ xs) ys (inr h) = elim (append-IsIn t xs ys h) [
  | inl k ↦ inl (inr k)
  | inr k ↦ inr k
]

IsReferencing-foreign_columns :
    (col : Text) (fks : List DdlForeignKey) → IsIn col (foreign_columns fks) → IsReferencing col fks
unfolding foreign_columns
IsReferencing-foreign_columns col [] h = elim h [ ]
IsReferencing-foreign_columns col (fk ∷ fks) h =
    elim (append-IsIn col fk.columns (foreign_columns fks) h) [
      | inl k ↦ inl k
      | inr k ↦ inr (IsReferencing-foreign_columns col fks k)
    ]

pub IsConstrained-listed :
    (pk : Option DdlPrimaryKey) (fks : List DdlForeignKey) (col : Text)
    → IsIn col (key_columns pk ++ foreign_columns fks)
    → IsConstrained pk fks col
unfolding key_columns
IsConstrained-listed none fks col h = IsReferencing-foreign_columns col fks h
IsConstrained-listed (some pk) fks col h =
    elim (append-IsIn col pk.columns (foreign_columns fks) h) [
      | inl k ↦ inl k
      | inr k ↦ inr (IsReferencing-foreign_columns col fks k)
    ]

pub named_only-All :
    (P : Text → Type 0) (cols : List Text)
    → All P cols
    → All (λ col. (is_empty col ≡ false) × P col) (named_only cols)
unfolding named_only
named_only-All P [] h = tt
named_only-All P (c ∷ cols) h = elim (Bool-cases (is_empty c)) [
  | inl t ↦ rw t (named_only-All P cols h.1)
  | inr f ↦ rw f ((f, h.0), named_only-All P cols h.1)
]

pub contains-IsIn :
    (key : Text → Text) (col : Text) (cols : List Text)
    → IsIn col cols
    → contains (map key cols) (key col) ≡ true
unfolding contains
contains-IsIn key col [] h = elim h [ ]
contains-IsIn key col (c ∷ cols) (inl e) = rw (← e, text_eq_self) refl
contains-IsIn key col (c ∷ cols) (inr h) = ground (arith, contains-IsIn key col cols h)
