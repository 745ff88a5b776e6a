-- ===== src/Ddl/Contexts.antt =====
-- The contexts of DDL statements, as far as ddl.go reads them. A terminal that the code only
-- compares with nil is a `Bool`, named after the token (`not_kw` for `NOT()`); what may be nil is an
-- `Option`.
use postgresparser.Prelude.{ℕ, Bool, Option, List}
use postgresparser.Tree.{Node}

-- `Key_actionContext`
pub record KeyAction : Type 0 where
  pub cascade_kw : Bool
  pub set_kw : Bool
  pub null_kw : Bool
  pub default_kw : Bool
  pub restrict_kw : Bool
  pub no_kw : Bool
  pub action_kw : Bool

-- `Key_actionsContext`: `Key_delete()` and `Key_update()`, with their `Key_action()`
pub record KeyActions : Type 0 where
  pub key_delete : Option (Option KeyAction)
  pub key_update : Option (Option KeyAction)

-- `ColumnElemContext`
pub record ColumnElem : Type 0 where
  pub colid : Option Node

-- `ColumnlistContext`: `AllColumnElem()`
abbrev pub ColumnList : Type 0
ColumnList = List (Option ColumnElem)

-- `ColconstraintelemContext`
pub record ColConstraintElem : Type 0 where
  pub not_kw : Bool
  pub null_kw : Bool
  pub primary_kw : Bool
  pub key_kw : Bool
  pub default_kw : Bool
  pub unique_kw : Bool
  pub references_kw : Bool
  pub check_kw : Bool
  pub a_expr : Option Node
  pub b_expr : Option Node
  pub qualified_name : Option Node
  pub column_list : Option (Option ColumnList)
  pub key_actions : Option KeyActions

-- `ColconstraintContext`
pub record ColConstraint : Type 0 where
  pub name : Option Node
  pub elem : Option ColConstraintElem

-- `ColumnDefContext`; the list is `Colquallist().AllColconstraint()`
pub record ColumnDef : Type 0 where
  pub start : Option ℕ
  pub colid : Option Node
  pub typename : Option Node
  pub colquallist : Option (List (Option ColConstraint))

-- `ConstraintelemContext`
pub record ConstraintElem : Type 0 where
  pub primary_kw : Bool
  pub key_kw : Bool
  pub unique_kw : Bool
  pub foreign_kw : Bool
  pub references_kw : Bool
  pub check_kw : Bool
  pub a_expr : Option Node
  pub columnlist : Option ColumnList
  pub qualified_name : Option Node
  pub column_list : Option (Option ColumnList)
  pub key_actions : Option KeyActions

-- `TableconstraintContext`
pub record TableConstraint : Type 0 where
  pub name : Option Node
  pub elem : Option ConstraintElem

-- `TableelementContext`
pub record TableElement : Type 0 where
  pub column_def : Option ColumnDef
  pub table_constraint : Option TableConstraint

-- `Drop_behavior_Context`
pub record DropBehavior : Type 0 where
  pub cascade_kw : Bool
  pub restrict_kw : Bool

-- `Relation_exprContext`
pub record RelationExpr : Type 0 where
  pub node : Node
  pub qualified_name : Option Node

-- `CreatestmtContext`; the list is `Opttableelementlist().Tableelementlist().AllTableelement()`
pub record CreateStmt : Type 0 where
  pub table_kw : Bool
  pub if_kw : Bool
  pub not_kw : Bool
  pub exists_kw : Bool
  pub qualified_name : Option Node
  pub opt_table_element_list : Option (Option (List (Option TableElement)))

-- `Object_type_any_nameContext`
pub record ObjectType : Type 0 where
  pub table_kw : Bool
  pub index_kw : Bool

-- `DropstmtContext`
pub record DropStmt : Type 0 where
  pub if_kw : Bool
  pub exists_kw : Bool
  pub concurrently_kw : Bool
  pub drop_behavior : Option DropBehavior
  pub any_name_list : Option (List Node)
  pub object_type : Option ObjectType

-- `Alter_table_cmdContext`
pub record AlterTableCmd : Type 0 where
  pub drop_kw : Bool
  pub add_kw : Bool
  pub alter_kw : Bool
  pub constraint_kw : Bool
  pub if_kw : Bool
  pub not_kw : Bool
  pub exists_kw : Bool
  pub drop_behavior : Option DropBehavior
  pub colids : List Node
  pub table_constraint : Option TableConstraint
  pub column_def : Option ColumnDef

-- `AltertablestmtContext`
pub record AlterTableStmt : Type 0 where
  pub table_kw : Bool
  pub relation_expr : Option RelationExpr
  pub cmds : Option (List (Option AlterTableCmd))

-- `IndexstmtContext`
pub record IndexStmt : Type 0 where
  pub index_name : Option Node
  pub relation_expr : Option RelationExpr
  pub index_params : Option (List Node)
  pub concurrently_kw : Bool
  pub unique_kw : Bool
  pub if_kw : Bool
  pub not_kw : Bool
  pub exists_kw : Bool
  pub access_method : Option (Option Node)

-- `Restart_seqs_Context`
pub record RestartSeqs : Type 0 where
  pub restart_kw : Bool
  pub continue_kw : Bool

-- `TruncatestmtContext`
pub record TruncateStmt : Type 0 where
  pub restart_seqs : Option RestartSeqs
  pub drop_behavior : Option DropBehavior
  pub relation_expr_list : Option (List RelationExpr)
