-- ===== src/Ddl/Alter/Laws.antt =====
-- Every action of an ALTER TABLE is on its table, and constrained columns are listed once.
use postgresparser.Prelude.{
  ◌≡◌, refl, if◌then◌else◌, Bool, true, false, Option, none, some, List, [], ◌∷◌, ◌++◌, map, Text,
  Fresh, dedup-Fresh, All, All-append, arith,
}
use postgresparser.Strings.{Unicode}
use postgresparser.Ir.{DdlPrimaryKey, DdlForeignKey, DdlConstraints, DdlAction, alter_table}
use postgresparser.Tree.{TokenStream}
use postgresparser.Ddl.Contexts.{TableConstraint, AlterTableCmd}
use postgresparser.Ddl.Constraints.{table_constraint}
use postgresparser.Ddl.Statements.{behavior_flags}
use postgresparser.Ddl.Alter.{
  key_columns, foreign_columns, named_only, column_key, constraint_columns, table_action, drop_cmd,
  add_constraint, add_column, add_cmd_of, alter_cmd, cmd_actions, cmds_actions,
}

-- An action on the named table.
abbrev pub IsOn : Text → Text → DdlAction → Type 0
IsOn schema name a = (a.schema ≡ schema) × (a.object_name ≡ name)

module _ ⦃u : Unicode⦄ (tokens : TokenStream) (schema name : Text) where
  drop_cmd-IsOn :
      (flags : List Text) (cmd : AlterTableCmd)
      → All (IsOn schema name) (drop_cmd tokens schema name flags cmd)
  unfolding drop_cmd
  drop_cmd-IsOn flags cmd = ground arith

  add_constraint-IsOn :
      (flags : List Text) (cs : DdlConstraints)
      → All (IsOn schema name) (add_constraint tokens schema name flags cs)
  unfolding add_constraint
  add_constraint-IsOn flags cs = ground arith

  add_column-IsOn :
      (flags : List Text) (cmd : AlterTableCmd)
      → All (IsOn schema name) (add_column tokens schema name flags cmd)
  unfolding add_column
  add_column-IsOn flags cmd = ground arith

  alter_cmd-IsOn :
      (flags : List Text) (cmd : AlterTableCmd)
      → All (IsOn schema name) (alter_cmd tokens schema name flags cmd)
  unfolding alter_cmd
  alter_cmd-IsOn flags cmd = ground arith

  add_cmd_of-IsOn :
      (flags : List Text) (cmd : AlterTableCmd) (c : Option TableConstraint)
      → All (IsOn schema name) (add_cmd_of tokens schema name flags cmd c)
  unfolding add_cmd_of
  add_cmd_of-IsOn flags cmd none = add_column-IsOn flags cmd
  add_cmd_of-IsOn flags cmd (some c) = add_constraint-IsOn flags (table_constraint tokens c)

  All-if :
      (test : Bool) (xs ys : List DdlAction)
      → All (IsOn schema name) xs
      → All (IsOn schema name) ys
      → All (IsOn schema name) (if test then xs else ys)
  All-if true xs ys hx hy = hx
  All-if false xs ys hx hy = hy

  cmd_actions_of-IsOn :
      (cmd : AlterTableCmd) (flags : List Text)
      → All (IsOn schema name) (
          if cmd.drop_kw
          then drop_cmd tokens schema name flags cmd
          else if cmd.add_kw
          then add_cmd_of tokens schema name flags cmd cmd.table_constraint
          else if cmd.alter_kw
          then alter_cmd tokens schema name flags cmd
          else table_action tokens schema name alter_table [] flags ∷ [])
  unfolding table_action
  cmd_actions_of-IsOn cmd flags = All-if cmd.drop_kw _ _ (drop_cmd-IsOn flags cmd) (
      All-if cmd.add_kw _ _ (add_cmd_of-IsOn flags cmd cmd.table_constraint)
        (All-if cmd.alter_kw _ _ (alter_cmd-IsOn flags cmd) ((refl, refl), tt)))

  cmd_actions-IsOn :
      (cmd : Option AlterTableCmd) → All (IsOn schema name) (cmd_actions tokens schema name cmd)
  unfolding cmd_actions
  cmd_actions-IsOn none = tt
  cmd_actions-IsOn (some cmd) = cmd_actions_of-IsOn cmd (behavior_flags cmd.drop_behavior)

  -- Every action that the sub-commands of ALTER TABLE add is on the schema and the table of the
  -- statement.
  pub cmds_actions-IsOn :
      (cmds : List (Option AlterTableCmd))
      → All (IsOn schema name) (cmds_actions tokens schema name cmds)
  unfolding cmds_actions
  cmds_actions-IsOn [] = tt
  cmds_actions-IsOn (cmd ∷ cmds) =
      All-append (IsOn schema name) (cmd_actions tokens schema name cmd)
        (cmds_actions tokens schema name cmds) (cmd_actions-IsOn cmd) (cmds_actions-IsOn cmds)

module _ ⦃u : Unicode⦄ (pk : Option DdlPrimaryKey) (fks : List DdlForeignKey) where
  -- The columns that ADD CONSTRAINT reports are pairwise different as PostgreSQL compares names.
  pub constraint_columns-Fresh : Fresh [] (map column_key (constraint_columns pk fks))
  unfolding constraint_columns
  constraint_columns-Fresh =
      dedup-Fresh column_key [] (named_only (key_columns pk ++ foreign_columns fks))
