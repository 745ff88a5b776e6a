-- ===== src/Ir.antt =====
-- ir.go: the intermediate representation. `QueryFields` holds the fields of `ParsedQuery` that
-- hold no further query; `ParsedQuery` adds those that do. A map is an association list.
use postgresparser.Prelude.{Bool, Option, none, List, [], Text}
use postgresparser.Strings.Decimal.{ℤ}

pub data QueryCommand : Type 0 where
  select insert update delete merge ddl unknown : QueryCommand

-- `no_type` is the empty text, the zero value.
pub data TableType : Type 0 where
  base cte function subquery no_type : TableType

pub record TableRef : Type 0 where
  pub schema : Text
  pub name : Text
  pub alias : Text
  pub table_type : TableType
  pub raw : Text
  pub join_type : Text
  pub join_condition : Text

-- A base table that a statement names.
abbrev pub base_table : Text → Text → Text → TableRef
base_table schema name raw = record {
  schema = schema;
  name = name;
  alias = [];
  table_type = base;
  raw = raw;
  join_type = [];
  join_condition = [];
}

pub record SelectColumn : Type 0 where
  pub expression : Text
  pub alias : Text

pub record SetOperation : Type 0 where
  pub op_type : Text
  pub query : Text
  pub columns : List Text
  pub tables : List TableRef

pub record UpsertClause : Type 0 where
  pub target_columns : List Text
  pub target_where : Text
  pub constraint : Text
  pub action : Text
  pub set_clauses : List Text
  pub action_where : Text

pub record MergeAction : Type 0 where
  pub action_type : Text
  pub condition : Text
  pub set_clauses : List Text
  pub insert_columns : List Text
  pub insert_values : Text

pub data DdlActionType : Type 0 where
  create_table drop_table drop_column alter_table : DdlActionType
  create_index drop_index truncate comment : DdlActionType

-- `unset` is the empty string.
pub data FkAction : Type 0 where
  unset no_action restrict cascade set_null set_default : FkAction

pub record DdlColumn : Type 0 where
  pub name : Text
  pub column_type : Text
  pub nullable : Bool
  pub default_value : Text
  pub comment : List Text

pub record DdlPrimaryKey : Type 0 where
  pub constraint_name : Text
  pub columns : List Text

pub record DdlForeignKey : Type 0 where
  pub constraint_name : Text
  pub columns : List Text
  pub references_schema : Text
  pub references_table : Text
  pub references_columns : List Text
  pub on_delete : FkAction
  pub on_update : FkAction

pub record DdlUniqueConstraint : Type 0 where
  pub constraint_name : Text
  pub columns : List Text

pub record DdlCheckConstraint : Type 0 where
  pub constraint_name : Text
  pub expression : Text

pub record DdlConstraints : Type 0 where
  pub primary_key : Option DdlPrimaryKey
  pub foreign_keys : List DdlForeignKey
  pub unique_keys : List DdlUniqueConstraint
  pub check_constraints : List DdlCheckConstraint

pub record DdlAction : Type 0 where
  pub action_type : DdlActionType
  pub object_name : Text
  pub object_type : Text
  pub schema : Text
  pub columns : List Text
  pub column_details : List DdlColumn
  pub constraints : Option DdlConstraints
  pub flags : List Text
  pub index_type : Text
  pub target : Text
  pub comment : Text

-- A `DDLAction` of which only the type is set.
abbrev pub new_action : DdlActionType → DdlAction
new_action t = record {
  action_type = t;
  object_name = [];
  object_type = [];
  schema = [];
  columns = [];
  column_details = [];
  constraints = none;
  flags = [];
  index_type = [];
  target = [];
  comment = [];
}

pub record OrderExpression : Type 0 where
  pub expression : Text
  pub direction : Text
  pub nulls : Text

pub record LimitClause : Type 0 where
  pub limit : Text
  pub offset : Text
  pub is_nested : Bool

pub record Parameter : Type 0 where
  pub raw : Text
  pub marker : Text
  pub position : ℤ

pub record JoinCorrelation : Type 0 where
  pub outer_alias : Text
  pub inner_alias : Text
  pub expression : Text
  pub correlation_type : Text

pub data ColumnUsageType : Type 0 where
  filter join projection group_by order_by returning : ColumnUsageType
  window_partition window_order dml_set upsert_target upsert_set : ColumnUsageType
  merge_target merge_source merge_set merge_insert unknown : ColumnUsageType

pub record ColumnUsage : Type 0 where
  pub table_alias : Text
  pub column : Text
  pub expression : Text
  pub usage_type : ColumnUsageType
  pub context : Text
  pub operator : Text
  pub side : Text
  pub functions : List Text

pub record QueryFields : Type 0 where
  pub command : QueryCommand
  pub raw_sql : Text
  pub columns : List SelectColumn
  pub tables : List TableRef
  pub column_usage : List ColumnUsage
  pub set_operations : List SetOperation
  pub wheres : List Text
  pub havings : List Text
  pub group_by : List Text
  pub order_by : List OrderExpression
  pub limit : Option LimitClause
  pub join_conditions : List Text
  pub parameters : List Parameter
  pub insert_columns : List Text
  pub set_clauses : List Text
  pub returnings : List Text
  pub upsert : Option UpsertClause
  pub ddl_actions : List DdlAction
  pub correlations : List JoinCorrelation
  pub derived_columns : List (Text × Text)

-- `MergeClause` without the subquery of its source.
pub record MergeFields : Type 0 where
  pub target : TableRef
  pub source_table : TableRef
  pub condition : Text
  pub actions : List MergeAction

-- `CTE` without its parsed body.
pub record CteFields : Type 0 where
  pub name : Text
  pub query : Text
  pub materialized : Text

mutual
  pub data ParsedQuery : Type 0 where
    parsed : QueryFields → Subqueries → Ctes → Merge → ParsedQuery

  -- `*ParsedQuery`
  pub data QueryPointer : Type 0 where
    nil : QueryPointer
    to : ParsedQuery → QueryPointer

  -- `[]SubqueryRef`: an alias and a query each
  pub data Subqueries : Type 0 where
    no_subqueries : Subqueries
    subquery_ref : Text → QueryPointer → Subqueries → Subqueries

  -- `[]CTE`
  pub data Ctes : Type 0 where
    no_ctes : Ctes
    cte_ref : CteFields → QueryPointer → Ctes → Ctes

  -- `*MergeClause`; the pointer of `source` is `nil`, or its alias comes with a query
  pub data Merge : Type 0 where
    no_merge : Merge
    merge : MergeFields → Text → QueryPointer → Merge
