-- ===== src/Ddl/Alter.antt =====
-- ALTER TABLE: `populateAlterTable`, `populateAlterTableCmd`, `extractAlterCmdColumnName` and
-- `collectAlterTableConstraintColumns`.
pub mod Columns
pub mod Laws
use postgresparser.Prelude.{
  Bool, true, false, not, ◌&&◌, ◌||◌, Option, none, some, List, [], ◌∷◌, ◌++◌, Text, codes,
  is_empty, contains, dedup, if◌then◌else◌,
}
use postgresparser.Strings.{Unicode, trim_space}
use postgresparser.Errors.{Result, ok, err, nil_context}
use postgresparser.Ir.{
  QueryFields, DdlPrimaryKey, DdlForeignKey, DdlConstraints, DdlActionType, DdlAction, new_action,
  drop_column, alter_table,
}
use postgresparser.Tree.{Node, TokenStream, is_present, context_text}
use postgresparser.Ddl.Contexts.{
  RelationExpr, ColumnDef, TableConstraint, AlterTableCmd, AlterTableStmt,
}
use postgresparser.Ddl.ColumnName.{normalize_column_name}
use postgresparser.Ddl.Constraints.{table_constraint}
use postgresparser.Ddl.Statements.{behavior_flags, flag, relation_name_parts, relation_table}

abbrev is_nil {ℓ} : {A : Type ℓ} → List A → Bool
is_nil [] = true
is_nil (x ∷ xs) = false

-- the columns of the primary key, then those of the foreign keys
pub key_columns : Option DdlPrimaryKey → List Text
key_columns none = []
key_columns (some pk) = pk.columns

pub foreign_columns : List DdlForeignKey → List Text
foreign_columns [] = []
foreign_columns (fk ∷ fks) = fk.columns ++ foreign_columns fks

pub named_only : List Text → List Text
named_only [] = []
named_only (col ∷ cols) = let rest = named_only cols in if is_empty col then rest else col ∷ rest

module _ ⦃u : Unicode⦄ where
  -- the key of `seen`
  pub column_key : Text → Text
  column_key col =
      let key = normalize_column_name col in if is_empty key then trim_space col else key

  -- `collectAlterTableConstraintColumns`
  unfoldable pub constraint_columns : Option DdlPrimaryKey → List DdlForeignKey → List Text
  unfolding column_key key_columns foreign_columns named_only
  constraint_columns pk fks =
      dedup column_key [] (named_only (key_columns pk ++ foreign_columns fks))

-- `extractAlterCmdColumnName`
unfoldable pub cmd_column_name : TokenStream → AlterTableCmd → Text
cmd_column_name tokens cmd = elim cmd.colids [
  | [] ↦ []
  | ◌∷◌ colid colids ↦ context_text tokens (some colid)
]

module _ ⦃u : Unicode⦄ (tokens : TokenStream) (schema name : Text) where
  -- an action on the table, with columns and flags
  table_action : DdlActionType → List Text → List Text → DdlAction
  table_action t columns flags = record (new_action t) {
    object_name = name;
    schema = schema;
    columns = columns;
    flags = flags;
  }

  drop_cmd : List Text → AlterTableCmd → List DdlAction
  unfolding table_action cmd_column_name
  drop_cmd flags cmd =
      let col = cmd_column_name tokens cmd in
      if cmd.constraint_kw || is_empty col
      then []
      else table_action drop_column (col ∷ [])
          (flags ++ flag (cmd.if_kw && cmd.exists_kw) (codes "IF_EXISTS"))
        ∷ []

  add_constraint : List Text → DdlConstraints → List DdlAction
  unfolding table_action constraint_columns
  add_constraint flags cs =
      if not (is_present cs.primary_key)
        && is_nil cs.foreign_keys
        && is_nil cs.unique_keys
        && is_nil cs.check_constraints
      then []
      else record (table_action alter_table (constraint_columns cs.primary_key cs.foreign_keys)
          (flags ++ codes "ADD_CONSTRAINT" ∷ [])) { constraints = some cs }
        ∷ []

  added_column : Option ColumnDef → Text
  added_column none = []
  added_column (some def) = context_text tokens def.colid

  add_column : List Text → AlterTableCmd → List DdlAction
  unfolding table_action added_column
  add_column flags cmd =
      let col = added_column cmd.column_def in
      if cmd.constraint_kw || is_empty col
      then []
      else table_action alter_table (col ∷ []) (
          flags
          ++ codes "ADD_COLUMN"
            ∷ flag (cmd.if_kw && cmd.not_kw && cmd.exists_kw) (codes "IF_NOT_EXISTS"))
        ∷ []

  add_cmd_of : List Text → AlterTableCmd → Option TableConstraint → List DdlAction
  unfolding add_constraint add_column
  add_cmd_of flags cmd none = add_column flags cmd
  add_cmd_of flags cmd (some c) = add_constraint flags (table_constraint tokens c)

  add_cmd : List Text → AlterTableCmd → List DdlAction
  unfolding add_cmd_of
  add_cmd flags cmd = add_cmd_of flags cmd cmd.table_constraint

  alter_cmd : List Text → AlterTableCmd → List DdlAction
  unfolding table_action cmd_column_name
  alter_cmd flags cmd =
      let col = cmd_column_name tokens cmd in
      if is_empty col
      then []
      else table_action alter_table (col ∷ []) (flags ++ codes "ALTER_COLUMN" ∷ []) ∷ []

  -- `populateAlterTableCmd`: the actions that one sub-command adds
  unfoldable pub cmd_actions : Option AlterTableCmd → List DdlAction
  unfolding drop_cmd add_cmd alter_cmd behavior_flags
  cmd_actions none = []
  cmd_actions (some cmd) =
      let flags = behavior_flags cmd.drop_behavior in
      if cmd.drop_kw
      then drop_cmd flags cmd
      else if cmd.add_kw
      then add_cmd flags cmd
      else if cmd.alter_kw
      then alter_cmd flags cmd
      else table_action alter_table [] flags ∷ []

  unfoldable pub cmds_actions : List (Option AlterTableCmd) → List DdlAction
  unfolding cmd_actions
  cmds_actions [] = []
  cmds_actions (cmd ∷ cmds) = cmd_actions cmd ++ cmds_actions cmds

module _ ⦃u : Unicode⦄ (tokens : TokenStream) where
  -- `tableRaw`, `tableSchema` and `tableName`
  altered_table : Option RelationExpr → Text × Text × Text
  unfolding relation_name_parts
  altered_table none = ([], [], [])
  altered_table (some rel) = relation_name_parts tokens rel

  altered_cmds : Option (List (Option AlterTableCmd)) → List (Option AlterTableCmd)
  altered_cmds none = []
  altered_cmds (some cmds) = cmds

  unfoldable pub populate_alter_table : QueryFields → Option AlterTableStmt → Result QueryFields
  unfolding altered_table altered_cmds cmds_actions
  populate_alter_table result none = err (nil_context (codes "alter table statement"))
  populate_alter_table result (some ctx) =
      let parts = altered_table ctx.relation_expr in
      if not ctx.table_kw
      then ok result
      else ok (record result {
        tables =
            result.tables
            ++ (elim ctx.relation_expr [ none ↦ [] | some rel ↦ relation_table tokens rel ∷ [] ]);
        ddl_actions =
            result.ddl_actions ++ cmds_actions tokens parts.1 parts.2 (altered_cmds ctx.cmds);
      })
