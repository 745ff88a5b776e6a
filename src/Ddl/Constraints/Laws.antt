-- ===== src/Ddl/Constraints/Laws.antt =====
-- The primary key of CREATE TABLE is the first one that its elements declare.
use postgresparser.Prelude.{
  ◌≡◌, refl, sym, ap, ◌∙◌, Bool, true, false, ◌&&◌, if◌then◌else◌, Option, none, some, List, [],
  ◌∷◌, ◌++◌, Text, is_empty, not, Bool-cases, inl, inr,
}
use postgresparser.Ir.{DdlPrimaryKey, DdlConstraints}
use postgresparser.Tree.{TokenStream, is_present}
use postgresparser.Ddl.ColumnName.{extract_column_names}
use postgresparser.Ddl.Contexts.{
  ColConstraintElem, ColConstraint, ColumnDef, ConstraintElem, TableConstraint, TableElement,
}
use postgresparser.Ddl.Constraints.{
  no_constraints, first_key, merge, constraint_name, column_name_text, add_column_constraint,
  add_column_constraints, column_constraints, key_from, table_constraint_elem, table_constraint,
  element_constraints, constraints_loop, create_table_constraints,
}

-- The first entry of a list, if there is one.
abbrev pub first {ℓ} : {A : Type ℓ} → List A → Option A
first [] = none
first (x ∷ xs) = some x

abbrev key_of : DdlConstraints → Option DdlPrimaryKey
key_of cs = cs.primary_key

-- PRIMARY KEY stands among the keywords of a column's constraint.
abbrev elem_is_key : Option ColConstraintElem → Bool
elem_is_key none = false
elem_is_key (some elem) = elem.primary_kw && elem.key_kw

abbrev listed_key : Text → List Text → List DdlPrimaryKey
listed_key name [] = []
listed_key name (col ∷ cols) = record { constraint_name = name; columns = col ∷ cols } ∷ []

module _ (tokens : TokenStream) where
  -- The primary keys that the constraints of one column declare, in reading order.
  abbrev inline_keys : Text → List (Option ColConstraint) → List DdlPrimaryKey
  inline_keys col [] = []
  inline_keys col (none ∷ cs) = inline_keys col cs
  inline_keys col (some c ∷ cs) =
      (if elem_is_key c.elem
        then record { constraint_name = constraint_name tokens c.name; columns = col ∷ [] } ∷ []
        else [])
      ++ inline_keys col cs

  -- A column without a name declares nothing.
  abbrev column_keys : Text → Option (List (Option ColConstraint)) → List DdlPrimaryKey
  column_keys col none = []
  column_keys col (some quals) = if is_empty col then [] else inline_keys col quals

  -- The primary key of a table-level constraint, which needs a list of columns.
  abbrev table_keys : Text → Option ConstraintElem → List DdlPrimaryKey
  table_keys name none = []
  table_keys name (some elem) =
      if elem.primary_kw && elem.key_kw && is_present elem.columnlist
      then listed_key name (extract_column_names tokens elem.columnlist)
      else []

  -- A table element is a column or else a table-level constraint.
  abbrev element_keys : Option ColumnDef → Option TableConstraint → List DdlPrimaryKey
  element_keys (some def) c = column_keys (column_name_text tokens def.colid) def.colquallist
  element_keys none (some c) = table_keys (constraint_name tokens c.name) c.elem
  element_keys none none = []

  -- All primary keys that the elements declare, in reading order.
  abbrev pub declared_keys : List (Option TableElement) → List DdlPrimaryKey
  declared_keys [] = []
  declared_keys (none ∷ elems) = declared_keys elems
  declared_keys (some elem ∷ elems) =
      element_keys elem.column_def elem.table_constraint ++ declared_keys elems

first_key_assoc :
    (a b c : Option DdlPrimaryKey) → first_key (first_key a b) c ≡ first_key a (first_key b c)
unfolding first_key
first_key_assoc none b c = refl
first_key_assoc (some a) b c = refl

first_key-none : (a : Option DdlPrimaryKey) → first_key a none ≡ a
unfolding first_key
first_key-none none = refl
first_key-none (some a) = refl

first-append : (xs ys : List DdlPrimaryKey) → first (xs ++ ys) ≡ first_key (first xs) (first ys)
unfolding first_key
first-append [] ys = refl
first-append (x ∷ xs) ys = refl

-- A key that is there already is kept.
kept_key :
    (primary here : Bool) (k : DdlPrimaryKey) (out : Option DdlPrimaryKey)
    → (if not (is_present out) && primary && here then some k else out)
      ≡ first_key out (first (if primary && here then k ∷ [] else []))
unfolding first_key
kept_key true true k none = refl
kept_key true false k none = refl
kept_key false here k none = refl
kept_key primary here k (some p) = refl

first-listed_key :
    (tokens : TokenStream) (name : Text) (cols : List Text)
    → key_from tokens name cols ≡ first (listed_key name cols)
unfolding key_from
first-listed_key tokens name [] = refl
first-listed_key tokens name (col ∷ cols) = refl

module _ (tokens : TokenStream) where
  column_step :
      (col name : Text) (elem : Option ColConstraintElem) (out : DdlConstraints)
      → key_of (elim elem [ none ↦ out | some e ↦ add_column_constraint tokens col name e out ])
        ≡ first_key out.primary_key (
            first (
              if elem_is_key elem
              then record { constraint_name = name; columns = col ∷ [] } ∷ []
              else []))
  unfolding add_column_constraint
  column_step col name none out = sym (first_key-none out.primary_key)
  column_step col name (some e) out =
      kept_key e.primary_kw e.key_kw (record { constraint_name = name; columns = col ∷ [] })
        out.primary_key

  column_loop :
      (col : Text) (cs : List (Option ColConstraint)) (out : DdlConstraints)
      → (add_column_constraints tokens col cs out).primary_key
        ≡ first_key out.primary_key (first (inline_keys tokens col cs))
  unfolding add_column_constraints
  column_loop col [] out = sym (first_key-none out.primary_key)
  column_loop col (none ∷ cs) out = column_loop col cs out
  column_loop col (some c ∷ cs) out =
      column_loop col cs _
      ∙ ap (λ (k : Option DdlPrimaryKey). first_key k (first (inline_keys tokens col cs)))
          (column_step col (constraint_name tokens c.name) c.elem out)
      ∙ first_key_assoc out.primary_key _ _
      ∙ ap (first_key out.primary_key) (sym (first-append _ (inline_keys tokens col cs)))

  column_key_of :
      (def : ColumnDef) (quals : Option (List (Option ColConstraint)))
      → key_of (elim quals [
        | none ↦ no_constraints
        | some qs ↦
            let col = column_name_text tokens def.colid in
            if is_empty col
            then no_constraints
            else add_column_constraints tokens col qs no_constraints
      ])
        ≡ first (column_keys tokens (column_name_text tokens def.colid) quals)
  unfolding first_key
  column_key_of def none = refl
  column_key_of def (some qs) = elim (Bool-cases (is_empty (column_name_text tokens def.colid))) [
    | inl h ↦ rw h refl
    | inr h ↦ rw h (column_loop (column_name_text tokens def.colid) qs no_constraints)
  ]

  table_key_of :
      (name : Text) (elem : Option ConstraintElem)
      → key_of (elim elem [ none ↦ no_constraints | some e ↦ table_constraint_elem tokens name e ])
        ≡ first (table_keys tokens name elem)
  unfolding table_constraint_elem
  table_key_of name none = refl
  table_key_of name (some e) =
      elim (Bool-cases (e.primary_kw && e.key_kw && is_present e.columnlist)) [
        | inl h ↦ rw h (first-listed_key tokens name (extract_column_names tokens e.columnlist))
        | inr h ↦ rw h refl
      ]

  element_key :
      (def : Option ColumnDef) (c : Option TableConstraint)
      → key_of (elim def [
        | some d ↦ column_constraints tokens d
        | none ↦ elim c [ some t ↦ table_constraint tokens t | none ↦ no_constraints ]
      ])
        ≡ first (element_keys tokens def c)
  unfolding column_constraints table_constraint
  element_key (some d) c = column_key_of d d.colquallist
  element_key none (some t) = table_key_of (constraint_name tokens t.name) t.elem
  element_key none none = refl

  loop_key :
      (elems : List (Option TableElement)) (out : DdlConstraints)
      → (constraints_loop tokens elems out).primary_key
        ≡ first_key out.primary_key (first (declared_keys tokens elems))
  unfolding constraints_loop element_constraints merge
  loop_key [] out = sym (first_key-none out.primary_key)
  loop_key (none ∷ elems) out = loop_key elems out
  loop_key (some e ∷ elems) out =
      loop_key elems (merge out (element_constraints tokens e))
      ∙ ap
          (λ (k : Option DdlPrimaryKey).
            first_key (first_key out.primary_key k) (first (declared_keys tokens elems)))
          (element_key e.column_def e.table_constraint)
      ∙ first_key_assoc out.primary_key _ _
      ∙ ap (first_key out.primary_key) (sym (first-append _ (declared_keys tokens elems)))

  -- The primary key of CREATE TABLE is the first that its elements declare in reading order, and
  -- there is none if they declare none: a column with a name declares one for each of its PRIMARY
  -- KEY constraints, and a table-level PRIMARY KEY constraint with columns declares one.
  pub create_table_constraints-first :
      (elems : List (Option TableElement))
      → (create_table_constraints tokens elems).primary_key ≡ first (declared_keys tokens elems)
  unfolding create_table_constraints first_key
  create_table_constraints-first elems = loop_key elems no_constraints
