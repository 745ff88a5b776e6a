-- ===== src/Ddl/Create/Laws.antt =====
-- Which columns of a new table accept NULL.
use postgresparser.Prelude.{
  ◌≡◌, refl, ◌∙◌, Bool, true, false, not, ◌||◌, ◌&&◌, ◌++◌, map, map-append, Option, none, some,
  List, [], ◌∷◌, arith, Text, is_empty, contains, Bool-cases, inl, inr, if◌then◌else◌,
}
use postgresparser.Strings.{Unicode}
use postgresparser.Ir.{DdlColumn}
use postgresparser.Tree.{TokenStream}
use postgresparser.Ddl.Contexts.{ColConstraintElem, ColConstraint, ColumnDef, TableElement}
use postgresparser.Ddl.ColumnName.{normalize_column_name}
use postgresparser.Ddl.Create.{
  column_name_of, add_qualifier_of, apply_qualifiers, column_of, qualifiers_loop,
  create_table_column, mark_key, create_table_columns,
}

-- `NOT NULL` or `PRIMARY KEY` stands among the constraints.
abbrev elem_denies : Option ColConstraintElem → Bool
elem_denies none = false
elem_denies (some elem) = (elem.not_kw && elem.null_kw) || (elem.primary_kw && elem.key_kw)

abbrev pub has_denial : List (Option ColConstraint) → Bool
has_denial [] = false
has_denial (none ∷ quals) = has_denial quals
has_denial (some c ∷ quals) = elem_denies c.elem || has_denial quals

abbrev quals_deny : Option (List (Option ColConstraint)) → Bool
quals_deny none = false
quals_deny (some quals) = has_denial quals

abbrev pub def_has_denial : ColumnDef → Bool
def_has_denial def = quals_deny def.colquallist

module _ ⦃u : Unicode⦄ (tokens : TokenStream) where
  add_qualifier_of-nullable :
      (elem : Option ColConstraintElem) (col : DdlColumn)
      → (add_qualifier_of tokens elem col).nullable
        ≡ (if elem_denies elem then false else col.nullable)
  unfolding add_qualifier_of
  add_qualifier_of-nullable none col = refl
  add_qualifier_of-nullable (some elem) col = refl

  qualifiers_loop-nullable :
      (quals : List (Option ColConstraint)) (col : DdlColumn)
      → (qualifiers_loop tokens quals col).nullable
        ≡ (if has_denial quals then false else col.nullable)
  unfolding qualifiers_loop
  qualifiers_loop-nullable [] col = refl
  qualifiers_loop-nullable (none ∷ quals) col = qualifiers_loop-nullable quals col
  qualifiers_loop-nullable (some c ∷ quals) col = ground (
    arith,
    qualifiers_loop-nullable quals (add_qualifier_of tokens c.elem col),
    add_qualifier_of-nullable c.elem col,
  )

  apply_qualifiers-nullable :
      (quals : Option (List (Option ColConstraint))) (col : DdlColumn)
      → col.nullable ≡ true
      → (apply_qualifiers tokens quals col).nullable ≡ not (quals_deny quals)
  unfolding apply_qualifiers
  apply_qualifiers-nullable none col h = h
  apply_qualifiers-nullable (some quals) col h = ground (arith, qualifiers_loop-nullable quals col)

  create_table_column-nullable :
      (def : ColumnDef) (comments : List (Text × List Text))
      → (create_table_column tokens def comments).nullable ≡ not (def_has_denial def)
  unfolding create_table_column
  create_table_column-nullable def comments = apply_qualifiers-nullable def.colquallist _ refl

  add_qualifier_of-name :
      (elem : Option ColConstraintElem) (col : DdlColumn)
      → (add_qualifier_of tokens elem col).name ≡ col.name
  unfolding add_qualifier_of
  add_qualifier_of-name none col = refl
  add_qualifier_of-name (some elem) col = refl

  qualifiers_loop-name :
      (quals : List (Option ColConstraint)) (col : DdlColumn)
      → (qualifiers_loop tokens quals col).name ≡ col.name
  unfolding qualifiers_loop
  qualifiers_loop-name [] col = refl
  qualifiers_loop-name (none ∷ quals) col = qualifiers_loop-name quals col
  qualifiers_loop-name (some c ∷ quals) col =
      qualifiers_loop-name quals (add_qualifier_of tokens c.elem col)
      ∙ add_qualifier_of-name c.elem col

  apply_qualifiers-name :
      (quals : Option (List (Option ColConstraint))) (col : DdlColumn)
      → (apply_qualifiers tokens quals col).name ≡ col.name
  unfolding apply_qualifiers
  apply_qualifiers-name none col = refl
  apply_qualifiers-name (some quals) col = qualifiers_loop-name quals col

  create_table_column-name :
      (def : ColumnDef) (comments : List (Text × List Text))
      → (create_table_column tokens def comments).name ≡ column_name_of tokens def.colid
  unfolding create_table_column
  create_table_column-name def comments = apply_qualifiers-name def.colquallist _

  -- The name of a column definition, if it has one, with whether the column accepts NULL.
  abbrev declared_column : List Text → Option ColumnDef → List (Text × Bool)
  declared_column keys none = []
  declared_column keys (some def) =
      let name = column_name_of tokens def.colid in
      if is_empty name
      then []
      else (name, not (contains keys (normalize_column_name name)) && not (def_has_denial def)) ∷ []

  abbrev pub declared_columns : List Text → List (Option TableElement) → List (Text × Bool)
  declared_columns keys [] = []
  declared_columns keys (none ∷ elems) = declared_columns keys elems
  declared_columns keys (some elem ∷ elems) =
      declared_column keys elem.column_def ++ declared_columns keys elems

  abbrev pub name_and_nullable : DdlColumn → Text × Bool
  name_and_nullable c = (c.name, c.nullable)

  marked :
      (keys : List Text) (name : Text) (denied : Bool) (col : DdlColumn)
      → col.name ≡ name
      → col.nullable ≡ not denied
      → map name_and_nullable (if is_empty col.name then [] else mark_key tokens keys col ∷ []) ≡ (
          if is_empty name
          then []
          else (name, not (contains keys (normalize_column_name name)) && not denied) ∷ [])
  unfolding mark_key
  marked keys name denied col hn hd =
      rw (← hn, ← hd)
        (elim (Bool-cases (is_empty col.name)) [
          | inl e ↦ rw e refl
          | inr e ↦ elim (Bool-cases (contains keys (normalize_column_name col.name))) [
            | inl h ↦ rw (e, h) refl
            | inr h ↦ rw (e, h) refl
          ]
        ])

  column_of-declared :
      (keys : List Text) (comments : List (Text × List Text)) (def : Option ColumnDef)
      → map name_and_nullable (column_of tokens keys comments def) ≡ declared_column keys def
  unfolding column_of
  column_of-declared keys comments none = refl
  column_of-declared keys comments (some def) =
      marked keys (column_name_of tokens def.colid) (def_has_denial def)
        (create_table_column tokens def comments) (create_table_column-name def comments)
        (create_table_column-nullable def comments)

  -- The columns that CREATE TABLE lists are its column definitions with a name, in their order and
  -- under that name; each accepts NULL exactly when no NOT NULL and no PRIMARY KEY stands among its
  -- inline constraints and its normalised name is not among the given primary key columns.
  pub create_table_columns-declared :
      (keys : List Text) (comments : List (Text × List Text)) (elems : List (Option TableElement))
      → map name_and_nullable (create_table_columns tokens keys comments elems)
        ≡ declared_columns keys elems
  unfolding create_table_columns
  create_table_columns-declared keys comments [] = refl
  create_table_columns-declared keys comments (none ∷ elems) =
      create_table_columns-declared keys comments elems
  create_table_columns-declared keys comments (some elem ∷ elems) =
      map-append name_and_nullable (column_of tokens keys comments elem.column_def)
        (create_table_columns tokens keys comments elems)
      ∙ λ i.
          column_of-declared keys comments elem.column_def i
          ++ create_table_columns-declared keys comments elems i

  -- A column of the table-level primary key `keys` is not nullable.
  abbrev pub ObeysKey : List Text → DdlColumn → Type 0
  ObeysKey keys c = contains keys (normalize_column_name c.name) ≡ true → c.nullable ≡ false
