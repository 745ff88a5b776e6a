-- ===== src/Ddl/Constraints.antt =====
-- The constraints of CREATE TABLE and of ALTER TABLE ... ADD CONSTRAINT.
pub mod Laws
use postgresparser.Prelude.{
  Bool, true, false, not, ◌&&◌, Option, none, some, List, [], ◌∷◌, ◌++◌, Text, is_empty,
  if◌then◌else◌,
}
use postgresparser.Strings.{trim_space}
use postgresparser.Names.{split_qualified_name}
use postgresparser.Ir.{
  FkAction, unset, no_action, restrict, cascade, set_null, set_default, DdlPrimaryKey,
  DdlForeignKey, DdlUniqueConstraint, DdlCheckConstraint, DdlConstraints,
}
use postgresparser.Tree.{Node, TokenStream, is_present, context_text}
use postgresparser.Ddl.Contexts.{
  KeyAction, KeyActions, ColumnList, ColConstraintElem, ColConstraint, ColumnDef, ConstraintElem,
  TableConstraint, TableElement,
}
use postgresparser.Ddl.ColumnName.{
  text_or_get_text, extract_column_names, extract_column_names_from_list,
}

-- The zero value of `tableConstraints`, a struct with the fields of `DDLConstraints`.
abbrev pub no_constraints : DdlConstraints
no_constraints = record {
  primary_key = none;
  foreign_keys = [];
  unique_keys = [];
  check_constraints = [];
}

-- `tc.PrimaryKey` after the merge.
first_key : Option DdlPrimaryKey → Option DdlPrimaryKey → Option DdlPrimaryKey
first_key none other = other
first_key (some pk) other = some pk

-- `(*tableConstraints).merge`
unfoldable pub merge : DdlConstraints → DdlConstraints → DdlConstraints
unfolding first_key
merge tc other = record {
  primary_key = first_key tc.primary_key other.primary_key;
  foreign_keys = tc.foreign_keys ++ other.foreign_keys;
  unique_keys = tc.unique_keys ++ other.unique_keys;
  check_constraints = tc.check_constraints ++ other.check_constraints;
}

-- `extractKeyActionText`
unfoldable pub key_action_text : Option KeyAction → FkAction
key_action_text none = unset
key_action_text (some action) =
    if action.cascade_kw
    then cascade
    else if action.set_kw && action.null_kw
    then set_null
    else if action.set_kw && action.default_kw
    then set_default
    else if action.restrict_kw
    then restrict
    else if action.no_kw && action.action_kw
    then no_action
    else unset

-- the action of `ON DELETE` or `ON UPDATE`
clause_action : Option (Option KeyAction) → FkAction
unfolding key_action_text
clause_action none = unset
clause_action (some action) = key_action_text action

-- `extractForeignKeyActions`
unfoldable pub foreign_key_actions : Option KeyActions → FkAction × FkAction
unfolding clause_action
foreign_key_actions none = (unset, unset)
foreign_key_actions (some actions) =
    (clause_action actions.key_delete, clause_action actions.key_update)

module _ (tokens : TokenStream) where
  -- `createTableConstraintName`
  unfoldable pub constraint_name : Option Node → Text
  constraint_name none = []
  constraint_name (some name) = context_text tokens (some name)

  reference_text : Option Node → Text
  reference_text none = []
  reference_text (some table) = text_or_get_text tokens table

  -- `createTableForeignKeyFromReference`
  unfoldable pub foreign_key_from_reference :
      Text
      → List Text
      → Option Node
      → Option (Option ColumnList)
      → Option KeyActions
      → DdlForeignKey
  unfolding reference_text
  foreign_key_from_reference name columns table referenced actions = record {
    constraint_name = name;
    columns = columns;
    references_schema = (split_qualified_name (reference_text table)).0;
    references_table = (split_qualified_name (reference_text table)).1;
    references_columns = extract_column_names_from_list tokens referenced;
    on_delete = (foreign_key_actions actions).0;
    on_update = (foreign_key_actions actions).1;
  }

  -- the expression of a CHECK, unless it is empty
  check_from : Text → Option Node → List DdlCheckConstraint
  check_from name expr =
      let text = context_text tokens expr in
      if is_empty text then [] else record { constraint_name = name; expression = text } ∷ []

  -- `out` after the elements of one constraint of a column
  add_column_constraint : Text → Text → ColConstraintElem → DdlConstraints → DdlConstraints
  unfolding foreign_key_from_reference check_from
  add_column_constraint col name elem out = record {
    primary_key =
        if not (is_present out.primary_key) && elem.primary_kw && elem.key_kw
        then some (record { constraint_name = name; columns = col ∷ [] })
        else out.primary_key;
    unique_keys =
        out.unique_keys
        ++ (if elem.unique_kw
            then record { constraint_name = name; columns = col ∷ [] } ∷ []
            else []);
    foreign_keys =
        out.foreign_keys
        ++ (if elem.references_kw && is_present elem.qualified_name
            then foreign_key_from_reference name (col ∷ []) elem.qualified_name elem.column_list
                elem.key_actions
              ∷ []
            else []);
    check_constraints =
        out.check_constraints
        ++ (if elem.check_kw && is_present elem.a_expr then check_from name elem.a_expr else []);
  }

  -- the loop of `extractCreateTableColumnConstraints`
  add_column_constraints : Text → List (Option ColConstraint) → DdlConstraints → DdlConstraints
  unfolding add_column_constraint
  add_column_constraints col [] out = out
  add_column_constraints col (none ∷ cs) out = add_column_constraints col cs out
  add_column_constraints col (some c ∷ cs) out = add_column_constraints col cs (elim c.elem [
    | none ↦ out
    | some elem ↦ add_column_constraint col (constraint_name c.name) elem out
  ])

  pub column_name_text : Option Node → Text
  column_name_text none = []
  column_name_text (some colid) = text_or_get_text tokens colid

  -- `extractCreateTableColumnConstraints`
  unfoldable pub column_constraints : ColumnDef → DdlConstraints
  unfolding add_column_constraints column_name_text
  column_constraints def = elim def.colquallist [
    | none ↦ no_constraints
    | some quals ↦
        let col = column_name_text def.colid in
        if is_empty col then no_constraints else add_column_constraints col quals no_constraints
  ]

  key_from : Text → List Text → Option DdlPrimaryKey
  key_from name [] = none
  key_from name (col ∷ cols) = some (record { constraint_name = name; columns = col ∷ cols })

  unique_from : Text → List Text → List DdlUniqueConstraint
  unique_from name [] = []
  unique_from name (col ∷ cols) = record { constraint_name = name; columns = col ∷ cols } ∷ []

  -- the elements of a table-level constraint
  table_constraint_elem : Text → ConstraintElem → DdlConstraints
  unfolding foreign_key_from_reference check_from key_from unique_from
  table_constraint_elem name elem = record {
    primary_key =
        if elem.primary_kw && elem.key_kw && is_present elem.columnlist
        then key_from name (extract_column_names tokens elem.columnlist)
        else none;
    unique_keys =
        if elem.unique_kw && is_present elem.columnlist
        then unique_from name (extract_column_names tokens elem.columnlist)
        else [];
    foreign_keys =
        if elem.foreign_kw && elem.key_kw && elem.references_kw && is_present elem.qualified_name
        then foreign_key_from_reference name (extract_column_names tokens elem.columnlist)
            elem.qualified_name elem.column_list elem.key_actions
          ∷ []
        else [];
    check_constraints =
        if elem.check_kw && is_present elem.a_expr then check_from name elem.a_expr else [];
  }

  -- `extractCreateTableTableConstraint`
  unfoldable pub table_constraint : TableConstraint → DdlConstraints
  unfolding table_constraint_elem
  table_constraint c = elim c.elem [
    | none ↦ no_constraints
    | some elem ↦ table_constraint_elem (constraint_name c.name) elem
  ]

  -- what one table element adds
  element_constraints : TableElement → DdlConstraints
  unfolding column_constraints table_constraint
  element_constraints elem = elim elem.column_def [
    | some def ↦ column_constraints def
    | none ↦ elim elem.table_constraint [ some c ↦ table_constraint c | none ↦ no_constraints ]
  ]

  constraints_loop : List (Option TableElement) → DdlConstraints → DdlConstraints
  unfolding element_constraints merge
  constraints_loop [] out = out
  constraints_loop (none ∷ elems) out = constraints_loop elems out
  constraints_loop (some elem ∷ elems) out =
      constraints_loop elems (merge out (element_constraints elem))

  -- `extractCreateTableConstraints`
  unfoldable pub create_table_constraints : List (Option TableElement) → DdlConstraints
  unfolding constraints_loop
  create_table_constraints elems = constraints_loop elems no_constraints
