-- ===== src/Tests/Preprocess.antt =====
-- Scripts with comments and literals.
use postgresparser.Prelude.{◌≡◌, refl, [], ◌∷◌, ◌++◌, map, Text, codes, length, arith}
use postgresparser.Strings.{is_space, trim_right}
use postgresparser.Strings.Quote.{double_char}
use postgresparser.Preprocess.{no_quote, strip_comment, strip_lines, is_dollar_tag_char}
use postgresparser.Preprocess.Comments.{Keeps, strip_comment-Keeps, strip_comment_removes}
use postgresparser.Preprocess.Quotes.{
  single_quoted, prepend, strip_single_literal, strip_double_literal, strip_dollar_literal,
}
use postgresparser.Preprocess.Whole.{
  IsQuoteState, strip_comment-IsQuoteState, length-strip_lines, strip_lines_in_single,
}
use postgresparser.Tests.Setup.{ascii}

abbrev slashes : Text
slashes = codes "a // b"

strip_comment-Keeps_example : Keeps slashes (strip_comment slashes no_quote).0
strip_comment-Keeps_example = strip_comment-Keeps slashes no_quote

strip_comment_removes_example :
    strip_comment (codes "a " ++ codes "// b") no_quote ≡ (codes "a ", no_quote)
strip_comment_removes_example = strip_comment_removes (codes "a ") (codes " b") (ground arith)

strip_single_literal_example :
    strip_comment (codes "'" ++ (double_char b'\'' (codes "it's //") ++ codes "' // c")) no_quote
    ≡ prepend
        (codes "'" ++ (double_char b'\'' (codes "it's //") ++ codes "'"))
        (strip_comment (codes " // c") no_quote)
strip_single_literal_example = strip_single_literal (codes "it's //") (codes " // c") refl

strip_double_literal_example :
    strip_comment (codes "\"" ++ (codes "a//b" ++ codes "\" // c")) no_quote
    ≡ prepend (codes "\"" ++ (codes "a//b" ++ codes "\"")) (strip_comment (codes " // c") no_quote)
strip_double_literal_example = strip_double_literal (codes "a//b") (codes " // c") (ground arith)

strip_dollar_literal_example :
    strip_comment
      (codes "$"
        ++ (codes "f"
            ++ (codes "$" ++ (codes "a//b" ++ (codes "$" ++ (codes "f" ++ codes "$ // c"))))))
      no_quote
    ≡ prepend
        (codes "$"
          ++ ((codes "f" ++ codes "$") ++ codes "a//b" ++ codes "$" ++ (codes "f" ++ codes "$")))
        (strip_comment (codes " // c") no_quote)
strip_dollar_literal_example =
    strip_dollar_literal (codes "f") (codes "a//b") (codes " // c")
      (unfold is_dollar_tag_char in (refl, tt)) (ground arith)

no_quote-IsQuoteState : IsQuoteState no_quote
no_quote-IsQuoteState = record { one_quote = refl; dollar_alone = refl; tag_in_dollar = λ h. refl }

strip_comment-IsQuoteState_example : IsQuoteState (strip_comment (codes "a 'b") no_quote).1
strip_comment-IsQuoteState_example =
    strip_comment-IsQuoteState (codes "a 'b") no_quote no_quote-IsQuoteState

length-strip_lines_example :
    length (strip_lines (codes "SELECT 1 // one" ∷ codes "FROM t" ∷ []) no_quote)
    ≡ length (codes "SELECT 1 // one" ∷ codes "FROM t" ∷ [])
length-strip_lines_example =
    length-strip_lines (codes "SELECT 1 // one" ∷ codes "FROM t" ∷ []) no_quote

strip_lines_in_single_example :
    strip_lines (codes "one  " ∷ codes "two" ∷ []) single_quoted
    ≡ map (trim_right is_space) (codes "one  " ∷ codes "two" ∷ [])
strip_lines_in_single_example =
    strip_lines_in_single (codes "one  " ∷ codes "two" ∷ []) (ground arith)
