-- ===== src/Nested.antt =====
-- `parsePreparableStmtToIR` of entry.go, and the annotation of a tree with the meanings of the
-- selects and the statements in it: the calls of the code that go down into a nested select or
-- statement are one pass over the tree.
pub mod Laws
use postgresparser.Prelude.{ℕ, Bool, true, false, Option, none, some, List, Text, if◌then◌else◌}
use postgresparser.Strings.{Unicode, trim_space}
use postgresparser.Errors.{Result, ok, err, ◌>>=◌}
use postgresparser.Ir.{QueryCommand, select, insert, update, delete, unknown, ParsedQuery}
use postgresparser.Tree.{TokenStream}
use postgresparser.Entry.Parameters.{LexerToken}
use postgresparser.Entry.Statement.{Builders, new_parsed_query, set_parameters}
use postgresparser.Syntax.{Tree, Trees, terminal, rule, leaf, branch, child, is_rule, trimmed_text}
use postgresparser.Syntax.Rules.{
  Rule, select_with_parens, preparablestmt, selectstmt, insertstmt, updatestmt, deletestmt,
}
use postgresparser.Select.Meaning.{Context, Meaning, no_meaning}
use postgresparser.Select.Populate.{populate_select, parens_meaning}
use postgresparser.Dml.{populate_update, populate_delete}
use postgresparser.Dml.Insert.{populate_insert}
use postgresparser.Dml.Merge.{populate_merge}

module _ ⦃u : Unicode⦄ (lexer : Text → List LexerToken) (tokens : TokenStream) where
  finished : Text → Result ParsedQuery → Result ParsedQuery
  unfolding set_parameters
  finished raw query = query >>= λ q. ok (set_parameters lexer raw q)

  preparable_delete : Text → Option Context → Result ParsedQuery
  unfolding populate_delete finished new_parsed_query
  preparable_delete raw none = ok (new_parsed_query unknown raw)
  preparable_delete raw (some ctx) =
      finished raw (ok (populate_delete tokens (new_parsed_query delete raw) ctx))

  preparable_update : Text → Context → Option Context → Result ParsedQuery
  unfolding populate_update finished preparable_delete new_parsed_query
  preparable_update raw stmt none = preparable_delete raw (child deletestmt stmt)
  preparable_update raw stmt (some ctx) =
      finished raw (ok (populate_update tokens (new_parsed_query update raw) ctx))

  preparable_insert : Text → Context → Option Context → Result ParsedQuery
  unfolding populate_insert finished preparable_update new_parsed_query
  preparable_insert raw stmt none = preparable_update raw stmt (child updatestmt stmt)
  preparable_insert raw stmt (some ctx) =
      finished raw (populate_insert tokens (new_parsed_query insert raw) ctx)

  preparable_select : Text → Context → Option Context → Result ParsedQuery
  unfolding populate_select finished preparable_insert new_parsed_query
  preparable_select raw stmt none = preparable_insert raw stmt (child insertstmt stmt)
  preparable_select raw stmt (some ctx) =
      finished raw (populate_select tokens (new_parsed_query select raw) ctx)

  -- `parsePreparableStmtToIR` on a statement that is not nil
  unfoldable pub parse_preparable : Context → Text → Result ParsedQuery
  unfolding preparable_select
  parse_preparable stmt raw = preparable_select raw stmt (child selectstmt stmt)

  meaning_of : Context → Meaning
  unfolding parens_meaning parse_preparable no_meaning
  meaning_of ctx =
      if is_rule select_with_parens ctx
      then parens_meaning tokens ctx
      else if is_rule preparablestmt ctx
      then record no_meaning { query = parse_preparable ctx (trimmed_text tokens ctx) }
      else no_meaning

  annotated : Rule → Option ℕ → Option ℕ → Trees Meaning → Context
  unfolding meaning_of no_meaning
  annotated r i j cs = rule r i j (meaning_of (rule r i j no_meaning cs)) cs

  unfoldable mutual
    unfolding annotated

    pub annotate : Tree Unit → Context
    annotate (terminal t s) = terminal t s
    annotate (rule r i j a cs) = annotated r i j (annotate_all cs)

    pub annotate_all : Trees Unit → Trees Meaning
    annotate_all leaf = leaf
    annotate_all (branch c cs) = branch (annotate c) (annotate_all cs)

-- The builders of the statements that are no DDL, on the trees of the parser.
unfoldable pub builders : ⦃u : Unicode⦄ → (Text → List LexerToken) → Builders
unfolding annotate populate_select populate_insert populate_update populate_delete populate_merge
builders lexer = record {
  SelectStmt = Tree Unit;
  InsertStmt = Tree Unit;
  UpdateStmt = Tree Unit;
  DeleteStmt = Tree Unit;
  MergeStmt = Tree Unit;
  populate_select = λ q ctx tokens. populate_select tokens q (annotate lexer tokens ctx);
  populate_insert = λ q ctx tokens. populate_insert tokens q (annotate lexer tokens ctx);
  populate_update = λ q ctx tokens. ok (populate_update tokens q (annotate lexer tokens ctx));
  populate_delete = λ q ctx tokens. ok (populate_delete tokens q (annotate lexer tokens ctx));
  populate_merge = λ q ctx tokens. ok (populate_merge tokens q (annotate lexer tokens ctx));
}
