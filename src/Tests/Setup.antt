-- ===== src/Tests/Setup.antt =====
-- The tables of `unicode` at ASCII characters, a token stream and the data of the tests.
use postgresparser.Prelude.{
  ℕ, zero, suc, refl, Bool, true, false, ◌&&◌, ◌||◌, none, some, List, [], ◌∷◌, Text, codes, leb,
}
use postgresparser.Strings.{Unicode, upper_ascii, lower_ascii}
use postgresparser.Errors.{ok}
use postgresparser.Tree.{Node, TokenStream}
use postgresparser.Ddl.Contexts.{
  ColumnElem, ColConstraintElem, ColumnDef, ConstraintElem, TableElement, RelationExpr, ObjectType,
  DropStmt, AlterTableCmd, TruncateStmt,
}
use postgresparser.Ir.{QueryFields, ddl}
use postgresparser.Entry.Statement.{Builders, new_fields}

abbrev pub between_chars : ℕ → ℕ → ℕ → Bool
between_chars lo hi c = leb lo c && leb c hi

instance abbrev pub ascii : Unicode
ascii = record {
  is_letter = λ c. between_chars b'a' b'z' c || between_chars b'A' b'Z' c;
  is_digit = between_chars b'0' b'9';
  lower = lower_ascii;
  upper = upper_ascii;
  fold = lower_ascii;
  upper_at_ascii = λ c h. refl;
  lower_at_ascii = λ c h. refl;
  dollar_no_letter = refl;
  dollar_no_digit = refl;
}

-- A stream of the words of a text, one token each.
abbrev pub word_at : List Text → ℕ → Text
word_at [] i = []
word_at (w ∷ ws) zero = w
word_at (w ∷ ws) (suc i) = word_at ws i

abbrev pub stream_of : List Text → TokenStream
stream_of words = record { text_from_interval = λ i j. word_at words i; hidden_to_left = λ i. [] }

abbrev pub node_at : ℕ → Node
node_at i = record { start = some i; stop = some i; text = [] }

-- `public.users`, `"Id"` and `orders`
abbrev pub stream : TokenStream
stream = stream_of (codes "public.users" ∷ codes "\"Id\"" ∷ codes "orders" ∷ [])

abbrev pub column_elem : ColumnElem
column_elem = record { colid = some (node_at 1) }

abbrev pub primary_elem : ColConstraintElem
primary_elem = record {
  not_kw = false;
  null_kw = false;
  primary_kw = true;
  key_kw = true;
  default_kw = false;
  unique_kw = false;
  references_kw = false;
  check_kw = false;
  a_expr = none;
  b_expr = none;
  qualified_name = none;
  column_list = none;
  key_actions = none;
}

-- `"Id" orders PRIMARY KEY`
abbrev pub id_column : ColumnDef
id_column = record {
  start = some 1;
  colid = some (node_at 1);
  typename = some (node_at 2);
  colquallist = some (some (record { name = none; elem = some primary_elem }) ∷ []);
}

abbrev pub column_element : TableElement
column_element = record { column_def = some id_column; table_constraint = none }

-- `UNIQUE ("Id")`
abbrev pub unique_elem : ConstraintElem
unique_elem = record {
  primary_kw = false;
  key_kw = false;
  unique_kw = true;
  foreign_kw = false;
  references_kw = false;
  check_kw = false;
  a_expr = none;
  columnlist = some (some column_elem ∷ []);
  qualified_name = none;
  column_list = none;
  key_actions = none;
}

abbrev pub unique_element : TableElement
unique_element = record {
  column_def = none;
  table_constraint = some (record { name = none; elem = some unique_elem });
}

abbrev pub users : RelationExpr
users = record { node = node_at 0; qualified_name = some (node_at 0) }

abbrev pub orders : RelationExpr
orders = record { node = node_at 2; qualified_name = some (node_at 2) }

-- `TRUNCATE public.users, orders`
abbrev pub truncate_two : TruncateStmt
truncate_two = record {
  restart_seqs = none;
  drop_behavior = none;
  relation_expr_list = some (users ∷ orders ∷ []);
}

abbrev pub table_object : ObjectType
table_object = record { table_kw = true; index_kw = false }

-- `DROP TABLE public.users, orders`
abbrev pub drop_two : DropStmt
drop_two = record {
  if_kw = false;
  exists_kw = false;
  concurrently_kw = false;
  drop_behavior = none;
  any_name_list = some (node_at 0 ∷ node_at 2 ∷ []);
  object_type = some table_object;
}

-- `DROP COLUMN "Id"`
abbrev pub drop_id : AlterTableCmd
drop_id = record {
  drop_kw = true;
  add_kw = false;
  alter_kw = false;
  constraint_kw = false;
  if_kw = false;
  not_kw = false;
  exists_kw = false;
  drop_behavior = none;
  colids = node_at 1 ∷ [];
  table_constraint = none;
  column_def = none;
}

abbrev pub empty_query : QueryFields
empty_query = new_fields ddl []

-- Builders that leave the query as it is.
abbrev pub plain_builders : Builders
plain_builders = record {
  SelectStmt = Unit;
  InsertStmt = Unit;
  UpdateStmt = Unit;
  DeleteStmt = Unit;
  MergeStmt = Unit;
  populate_select = λ q ctx tokens. ok q;
  populate_insert = λ q ctx tokens. ok q;
  populate_update = λ q ctx tokens. ok q;
  populate_delete = λ q ctx tokens. ok q;
  populate_merge = λ q ctx tokens. ok q;
}
