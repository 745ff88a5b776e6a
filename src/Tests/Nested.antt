-- ===== src/Tests/Nested.antt =====
-- A SELECT statement, parsed with the builders of the library.
use postgresparser.Prelude.{none, List, [], Text, codes, false}
use postgresparser.Entry.Parameters.{LexerToken}
use postgresparser.Entry.Statement.{Stmt, select_stmt, ParseOptions, parse_statement_to_ir}
use postgresparser.Nested.{builders}
use postgresparser.Nested.Laws.{Headed, command_of, parse_statement_to_ir-Headed}
use postgresparser.Tests.Setup.{ascii}
use postgresparser.Tests.Trees.{words, select_statement}

abbrev no_tokens : Text → List LexerToken
no_tokens sql = []

abbrev no_options : ParseOptions
no_options = record { include_create_table_field_comments = false }

abbrev statement : Stmt (builders no_tokens)
unfolding builders
statement = record { start = none; stop = none; body = select_stmt (select_statement tt) }

parse_statement_to_ir-Headed_example :
    Headed no_tokens words (command_of no_tokens words statement.body) (codes "SELECT id ") (
      parse_statement_to_ir
        (builders no_tokens)
        no_tokens
        words
        no_options
        statement
        (codes "SELECT id "))
parse_statement_to_ir-Headed_example =
    parse_statement_to_ir-Headed no_tokens words no_options statement (codes "SELECT id ")
