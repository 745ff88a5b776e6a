-- ===== src/Tests/Comment.antt =====
-- Comment literals in the three notations.
use postgresparser.Prelude.{◌≡◌, ◌++◌, codes}
use postgresparser.Strings.Quote.{quote}
use postgresparser.Comment.{apostrophe, decode_string_literal}
use postgresparser.Comment.Literals.{
  escape, decode_string_literal-quote, decode_string_literal-escape,
}
use postgresparser.Tests.Setup.{ascii}

decode_string_literal-quote_example :
    decode_string_literal (quote apostrophe (codes "it's")) ≡ codes "it's"
decode_string_literal-quote_example = decode_string_literal-quote (codes "it's")

decode_string_literal-escape_example :
    decode_string_literal (codes "E'" ++ (escape (codes "it's \\") ++ codes "'")) ≡ codes "it's \\"
decode_string_literal-escape_example = decode_string_literal-escape (codes "it's \\")
