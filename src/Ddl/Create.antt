-- ===== src/Ddl/Create.antt =====
-- CREATE TABLE: `populateCreateTable` and `extractCreateTableColumn` of ddl.go, with
-- `extractCreateTableFieldCommentsByColumn` of ddl_comment.go.
pub mod Laws
use postgresparser.Prelude.{
  Bool, true, false, not, ◌&&◌, ◌||◌, Option, none, some, List, [], ◌∷◌, ◌++◌, map, Text, codes,
  is_empty, contains, lookup, insert, if◌then◌else◌,
}
use postgresparser.Strings.{Unicode, is_space, trim_space, has_prefix, join}
use postgresparser.Errors.{Result, ok, err, nil_context}
use postgresparser.Names.{split_qualified_name}
use postgresparser.Ir.{
  QueryFields, base_table, DdlColumn, DdlConstraints, DdlAction, new_action, create_table,
}
use postgresparser.Tree.{Node, TokenStream, HiddenToken, is_present, ctx_text, context_text}
use postgresparser.Ddl.Contexts.{
  ColConstraintElem, ColConstraint, ColumnDef, TableElement, CreateStmt,
}
use postgresparser.Ddl.ColumnName.{text_or_get_text, normalize_column_name, primary_key_column_set}
use postgresparser.Ddl.Constraints.{create_table_constraints}

-- `strings.Fields`, with the word so far
fields_loop : Text → Text → List Text
fields_loop word [] = if is_empty word then [] else word ∷ []
fields_loop word (c ∷ s) =
    let gap = fields_loop [] s in
    let more = fields_loop (word ++ c ∷ []) s in
    if is_space c then (if is_empty word then gap else word ∷ gap) else more

-- `normalizeSpace`
unfoldable pub normalize_space : Text → Text
unfolding fields_loop
normalize_space s = join (b' ' ∷ []) (fields_loop [] (trim_space s))

-- `strings.TrimPrefix(s, "--")`
trim_dashes : Text → Text
trim_dashes [] = []
trim_dashes (c ∷ []) = c ∷ []
trim_dashes (c ∷ d ∷ s) = if has_prefix (codes "--") (c ∷ d ∷ s) then s else c ∷ d ∷ s

-- `extractLineCommentsFromHiddenTokens`
unfoldable pub line_comments : List HiddenToken → List Text
unfolding trim_dashes
line_comments [] = []
line_comments (tok ∷ hidden) =
    let rest = line_comments hidden in
    let line = trim_space (trim_dashes tok.text) in
    if not tok.is_line_comment || is_empty line then rest else line ∷ rest

-- `NOT NULL` and `PRIMARY KEY`
abbrev pub denies_null : ColConstraintElem → Bool
denies_null elem = (elem.not_kw && elem.null_kw) || (elem.primary_kw && elem.key_kw)

module _ ⦃u : Unicode⦄ (tokens : TokenStream) where
  -- the comments of one column definition go into the map
  add_comments : ColumnDef → List (Text × List Text) → List (Text × List Text)
  add_comments def comments = elim def.colid [
    | none ↦ comments
    | some colid ↦
        let col = normalize_column_name (trim_space colid.text) in
        elim def.start [
          | none ↦ comments
          | some index ↦
              let lines = line_comments (tokens.hidden_to_left index) in
              if is_empty col
              then comments
              else elim lines [ [] ↦ comments | ◌∷◌ l ls ↦ insert col (l ∷ ls) comments ]
        ]
  ]

  comments_loop : List (Option TableElement) → List (Text × List Text) → List (Text × List Text)
  unfolding add_comments
  comments_loop [] comments = comments
  comments_loop (none ∷ elems) comments = comments_loop elems comments
  comments_loop (some elem ∷ elems) comments =
      comments_loop elems
        (elim elem.column_def [ none ↦ comments | some def ↦ add_comments def comments ])

  -- `extractCreateTableFieldCommentsByColumn`
  unfoldable pub field_comments_by_column : List (Option TableElement) → List (Text × List Text)
  unfolding comments_loop
  field_comments_by_column elems = comments_loop elems []

  pub column_name_of : Option Node → Text
  column_name_of none = []
  column_name_of (some colid) = text_or_get_text tokens colid

  -- `Nullable` and `Default` after one constraint
  add_qualifier : ColConstraintElem → DdlColumn → DdlColumn
  add_qualifier elem col = record col {
    nullable = if denies_null elem then false else col.nullable;
    default_value =
        if elem.default_kw && is_present elem.b_expr
        then context_text tokens elem.b_expr
        else col.default_value;
  }

  add_qualifier_of : Option ColConstraintElem → DdlColumn → DdlColumn
  unfolding add_qualifier
  add_qualifier_of none col = col
  add_qualifier_of (some elem) col = add_qualifier elem col

  qualifiers_loop : List (Option ColConstraint) → DdlColumn → DdlColumn
  unfolding add_qualifier_of
  qualifiers_loop [] col = col
  qualifiers_loop (none ∷ quals) col = qualifiers_loop quals col
  qualifiers_loop (some c ∷ quals) col = qualifiers_loop quals (add_qualifier_of c.elem col)

  apply_qualifiers : Option (List (Option ColConstraint)) → DdlColumn → DdlColumn
  unfolding qualifiers_loop
  apply_qualifiers none col = col
  apply_qualifiers (some quals) col = qualifiers_loop quals col

  comments_of : Text → List (Text × List Text) → List Text
  comments_of name comments =
      let normalized = normalize_column_name name in
      if is_empty normalized
      then []
      else elim (lookup normalized comments) [ none ↦ [] | some lines ↦ lines ]

  type_text : Option Node → Text
  type_text none = []
  type_text (some typ) = normalize_space (ctx_text tokens (some typ))

  -- `extractCreateTableColumn`
  unfoldable pub create_table_column : ColumnDef → List (Text × List Text) → DdlColumn
  unfolding column_name_of apply_qualifiers comments_of type_text
  create_table_column def comments = apply_qualifiers def.colquallist (record {
    name = column_name_of def.colid;
    column_type = type_text def.typename;
    nullable = true;
    default_value = [];
    comment = comments_of (column_name_of def.colid) comments;
  })

  -- a column of the primary key is not nullable
  pub mark_key : List Text → DdlColumn → DdlColumn
  mark_key keys col =
      if contains keys (normalize_column_name col.name)
      then record col { nullable = false }
      else col

  -- the column that a table element adds, if it is one and has a name
  column_of : List Text → List (Text × List Text) → Option ColumnDef → List DdlColumn
  unfolding mark_key
  column_of keys comments none = []
  column_of keys comments (some def) =
      let col = create_table_column def comments in
      if is_empty col.name then [] else mark_key keys col ∷ []

  -- the loop over the column definitions
  pub create_table_columns :
      List Text → List (Text × List Text) → List (Option TableElement) → List DdlColumn
  unfolding column_of
  create_table_columns keys comments [] = []
  create_table_columns keys comments (none ∷ elems) = create_table_columns keys comments elems
  create_table_columns keys comments (some elem ∷ elems) =
      column_of keys comments elem.column_def ++ create_table_columns keys comments elems

  -- `Columns`, `ColumnDetails` and `Constraints` of the action
  describe_table : Bool → List (Option TableElement) → DdlAction → DdlAction
  unfolding create_table_columns field_comments_by_column
  describe_table with_comments elems action =
      let constraints = create_table_constraints tokens elems in
      let comments = if with_comments then field_comments_by_column elems else [] in
      let columns =
        create_table_columns (primary_key_column_set constraints.primary_key) comments elems in
      record action {
        columns = map (λ c. c.name) columns;
        column_details = columns;
        constraints = some constraints;
      }

  describe_elements : Bool → Option (Option (List (Option TableElement))) → DdlAction → DdlAction
  unfolding describe_table
  describe_elements with_comments (some (some elems)) action =
      describe_table with_comments elems action
  describe_elements with_comments _ action = action

  -- `populateCreateTable`, with `opts.IncludeCreateTableFieldComments`
  unfoldable pub populate_create_table : Bool → QueryFields → Option CreateStmt → Result QueryFields
  unfolding describe_elements
  populate_create_table with_comments result none =
      err (nil_context (codes "create table statement"))
  populate_create_table with_comments result (some ctx) =
      let raw = context_text tokens ctx.qualified_name in
      let (schema, name) = split_qualified_name raw in
      let action = record (new_action create_table) {
        object_name = name;
        schema = schema;
        flags = if ctx.if_kw && ctx.not_kw && ctx.exists_kw then codes "IF_NOT_EXISTS" ∷ [] else [];
      } in
      if not ctx.table_kw
      then ok result
      else ok (record result {
        tables = result.tables ++ (if is_empty raw then [] else base_table schema name raw ∷ []);
        ddl_actions =
            result.ddl_actions
            ++ describe_elements with_comments ctx.opt_table_element_list action ∷ [];
      })
