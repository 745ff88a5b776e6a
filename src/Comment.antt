-- ===== src/Comment.antt =====
-- ddl_comment.go: COMMENT ON and the string literals of its text.
pub mod Literals
pub mod Frame
use postgresparser.Prelude.{
  ℕ, ◌-◌, ◌+◌, ◌*◌, Bool, true, false, not, ◌&&◌, ◌||◌, Option, none, some, List, [], ◌∷◌, ◌++◌,
  Text, codes, is_empty, length, take, drop, text_eq, ltb, leb, ◌==◌, if◌then◌else◌,
}
use postgresparser.Strings.{
  Unicode, to_upper, equal_fold, trim_space, has_prefix, ends_in, drop_end, undouble_char,
}
use postgresparser.Errors.{Result, ok, err, nil_context}
use postgresparser.Names.{split_qualified_name, split_qualified_column_name}
use postgresparser.Ir.{QueryFields, TableRef, base_table, DdlAction, new_action, comment}
use postgresparser.Tree.{Node, TokenStream, is_present, context_text}
use postgresparser.Ddl.Create.{normalize_space}

abbrev pub apostrophe : ℕ
apostrophe = b'\''

abbrev pub backslash : ℕ
backslash = b'\\'

-- `decodeSingleQuoted`
unfoldable pub decode_single_quoted : Text → Option Text
decode_single_quoted [] = none
decode_single_quoted (c ∷ s) =
    if ltb (length (c ∷ s)) 2 || not (c == apostrophe) || not (ends_in apostrophe (c ∷ s))
    then none
    else some (undouble_char apostrophe (drop_end s))

-- What a backslash and a character stand for, in `escapedStringReplacer`.
escape_code : ℕ → Option ℕ
escape_code c =
    if c == backslash
    then some backslash
    else if c == apostrophe
    then some apostrophe
    else if c == b'n'
    then some 10
    else if c == b'r'
    then some 13
    else if c == b't'
    then some 9
    else if c == b'b'
    then some 8
    else if c == b'f'
    then some 12
    else none

-- `decodeEscapedString`
unfoldable pub decode_escaped : Text → Text
unfolding escape_code
decode_escaped [] = []
decode_escaped (c ∷ []) = c ∷ []
decode_escaped (c ∷ d ∷ s) =
    let rest = decode_escaped s in
    let plain = c ∷ decode_escaped (d ∷ s) in
    if c == backslash then elim (escape_code d) [ none ↦ plain | some e ↦ e ∷ rest ] else plain

-- the tag in front of the next dollar sign
until_dollar : Text → Option Text
until_dollar [] = none
until_dollar (c ∷ s) =
    let rest = until_dollar s in
    if c == b'$' then some [] else elim rest [ none ↦ none | some tag ↦ some (c ∷ tag) ]

-- the text between a delimiter and its second occurrence at the end
between : Text → Text → Option Text
between delim raw =
    let size = length delim in
    if ltb (length raw) (size * 2) || not (text_eq (drop (length raw - size) raw) delim)
    then none
    else some (take (length raw - size * 2) (drop size raw))

-- `decodeDollarQuotedString`
unfoldable pub decode_dollar_quoted : Text → Option Text
unfolding until_dollar between
decode_dollar_quoted [] = none
decode_dollar_quoted (c ∷ s) = if not (c == b'$') then none else elim (until_dollar s) [
  | none ↦ none
  | some tag ↦ between (b'$' ∷ (tag ++ b'$' ∷ [])) (c ∷ s)
]

-- a decoded text, or the text as it is
or_raw : Text → Option Text → Text
or_raw raw none = raw
or_raw raw (some text) = text

escaped_or_raw : Text → Option Text → Text
unfolding decode_escaped
escaped_or_raw raw none = raw
escaped_or_raw raw (some text) = decode_escaped text

module _ ⦃u : Unicode⦄ where
  -- the forms that do not start with a dollar sign
  decode_quoted : Text → Text
  decode_quoted trimmed =
      let upper = to_upper trimmed in
      if has_prefix (codes "E'") upper || has_prefix (codes "N'") upper
      then escaped_or_raw trimmed (decode_single_quoted (drop 1 trimmed))
      else if has_prefix (codes "U&'") upper
      then or_raw trimmed (decode_single_quoted (drop 2 trimmed))
      else or_raw trimmed (decode_single_quoted trimmed)

  decode_trimmed : Text → Text
  decode_trimmed trimmed =
      if is_empty trimmed
      then []
      else if has_prefix (b'$' ∷ []) trimmed
      then elim (decode_dollar_quoted trimmed) [ none ↦ decode_quoted trimmed | some text ↦ text ]
      else decode_quoted trimmed

  -- `decodeCommentStringLiteral`
  unfoldable pub decode_string_literal : Text → Text
  unfolding decode_trimmed decode_quoted decode_dollar_quoted or_raw escaped_or_raw
      decode_single_quoted to_upper trim_space
  decode_string_literal raw = decode_trimmed (trim_space raw)

  -- `decodeCommentText`
  unfoldable pub decode_comment_text : TokenStream → Option Node → Text
  unfolding decode_string_literal
  decode_comment_text tokens none = []
  decode_comment_text tokens (some ctx) =
      let raw = context_text tokens (some ctx) in
      if is_empty raw || equal_fold raw (codes "NULL") then [] else decode_string_literal raw

-- `CommentstmtContext`; a list of type names is `AllTypename()`
pub record CommentStmt : Type 0 where
  pub comment_text : Option Node
  pub column_kw : Bool
  pub type_kw : Bool
  pub domain_kw : Bool
  pub any_name : Option Node
  pub object_type_any_name : Option Node
  pub object_type_name : Option Node
  pub name : Option Node
  pub typenames : List Node

module _ ⦃u : Unicode⦄ (tokens : TokenStream) where
  -- the object that a qualified name names
  name_object : Text → Text → DdlAction → DdlAction
  name_object object_type raw action = record action {
    object_type = object_type;
    target = raw;
    schema = (split_qualified_name raw).0;
    object_name = (split_qualified_name raw).1;
  }

  pub comment_column : QueryFields → Text → DdlAction → QueryFields
  comment_column result raw action =
      let parts = split_qualified_column_name raw in
      let table_raw = if is_empty parts.0 then parts.1 else parts.0 ++ b'.' ∷ parts.1 in
      record result {
        tables =
            result.tables
            ++ (if is_empty parts.1 then [] else base_table parts.0 parts.1 table_raw ∷ []);
        ddl_actions =
            result.ddl_actions
            ++ record action {
              object_type = codes "COLUMN";
              target = raw;
              schema = parts.0;
              object_name = parts.1;
              columns = if is_empty parts.2 then [] else parts.2 ∷ [];
            }
              ∷ [];
      }

  type_text : Node → Text
  type_text n = to_upper (normalize_space (context_text tokens (some n)))

  pub comment_any_name : QueryFields → Node → Node → DdlAction → QueryFields
  unfolding name_object type_text
  comment_any_name result object_type name action =
      let raw = context_text tokens (some name) in
      let kind = type_text object_type in
      let is_table = text_eq kind (codes "TABLE") || text_eq kind (codes "FOREIGN TABLE") in
      record result {
        tables =
            result.tables
            ++ (if is_table
                then base_table (split_qualified_name raw).0 (split_qualified_name raw).1 raw ∷ []
                else []);
        ddl_actions = result.ddl_actions ++ name_object kind raw action ∷ [];
      }

  add_action : QueryFields → DdlAction → QueryFields
  add_action result action = record result { ddl_actions = result.ddl_actions ++ action ∷ [] }

  pub comment_type : QueryFields → CommentStmt → DdlAction → QueryFields
  unfolding name_object add_action
  comment_type result ctx action = add_action result (elim ctx.typenames [
    | [] ↦ record action { object_type = codes "UNKNOWN" }
    | ◌∷◌ n ns ↦
        if ctx.type_kw
        then name_object (codes "TYPE") (context_text tokens (some n)) action
        else if ctx.domain_kw
        then name_object (codes "DOMAIN") (context_text tokens (some n)) action
        else record action { object_type = codes "UNKNOWN" }
  ])

  pub comment_name : QueryFields → CommentStmt → Option Node → Option Node → DdlAction → QueryFields
  unfolding name_object type_text add_action comment_type
  comment_name result ctx (some object_type) (some name) action =
      add_action result
        (name_object (type_text object_type) (context_text tokens (some name)) action)
  comment_name result ctx _ _ action = comment_type result ctx action

  -- the cases of the switch, on `COLUMN`, `Any_name` and `Object_type_any_name`
  pub comment_object :
      QueryFields → CommentStmt → Option Node → Option Node → DdlAction → QueryFields
  unfolding comment_column comment_any_name comment_name
  comment_object result ctx (some name) object_type action =
      if ctx.column_kw
      then comment_column result (context_text tokens (some name)) action
      else elim object_type [
        | some t ↦ comment_any_name result t name action
        | none ↦ comment_name result ctx ctx.object_type_name ctx.name action
      ]
  comment_object result ctx none object_type action =
      comment_name result ctx ctx.object_type_name ctx.name action

  unfoldable pub populate_comment_stmt : QueryFields → Option CommentStmt → Result QueryFields
  unfolding comment_object decode_comment_text
  populate_comment_stmt result none = err (nil_context (codes "comment statement"))
  populate_comment_stmt result (some ctx) = ok (
      comment_object result ctx ctx.any_name ctx.object_type_any_name
        (record (new_action comment) { comment = decode_comment_text tokens ctx.comment_text }))
