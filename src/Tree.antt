-- ===== src/Tree.antt =====
-- Parse trees as the listeners see them, and `ctxText` (helpers.go) with `contextText`
-- (ddl_comment.go). A rule context that the code reads only for its text is a `Node`; a pointer
-- that may be nil is an `Option`. Every context that the grammar's code generates is an
-- `antlr.ParserRuleContext`, so the type assertions of the code hold.
use postgresparser.Prelude.{ℕ, Bool, true, false, List, Option, none, some, [], Text}
use postgresparser.Strings.{trim_space}

-- `GetStart().GetTokenIndex()`, `GetStop().GetTokenIndex()` and `GetText()` of a context.
pub record Node : Type 0 where
  pub start : Option ℕ
  pub stop : Option ℕ
  pub text : Text

-- A hidden token: whether its type is `LineComment`, and its text.
pub record HiddenToken : Type 0 where
  pub is_line_comment : Bool
  pub text : Text

-- `antlr.CommonTokenStream`: `GetTextFromInterval`, by the first and the last token, and
-- `GetHiddenTokensToLeft` on the hidden channel.
pub record TokenStream : Type 0 where
  pub text_from_interval : ℕ → ℕ → Text
  pub hidden_to_left : ℕ → List HiddenToken

interval_text : TokenStream → Option ℕ → Option ℕ → Text
interval_text tokens none stop = []
interval_text tokens (some i) none = []
interval_text tokens (some i) (some j) = tokens.text_from_interval i j

unfoldable pub ctx_text : TokenStream → Option Node → Text
unfolding interval_text
ctx_text tokens none = []
ctx_text tokens (some ctx) = interval_text tokens ctx.start ctx.stop

unfoldable pub context_text : TokenStream → Option Node → Text
unfolding ctx_text
context_text tokens ctx = trim_space (ctx_text tokens ctx)

-- `x != nil`
abbrev pub is_present {ℓ} : {A : Type ℓ} → Option A → Bool
is_present none = false
is_present (some a) = true
