-- ===== src/Syntax.antt =====
-- Parse trees as ANTLR hands them out: a rule context has a rule, its first and its last token and
-- its children; a terminal has the type and the text of its token. The accessors that ANTLR
-- generates look among the children: `X()` is the first child of the rule, `X(i)` the i-th,
-- `AllX()` all of them, and `T()` of a token is not nil where a child is a terminal of that type. A
-- rule context carries a value beside that, which the trees of the parser do not use.
pub mod Rules
pub mod Walk
use postgresparser.Prelude.{
  ℕ, Bool, true, false, Option, none, some, List, [], ◌∷◌, ◌++◌, Text, get_elem?, if◌then◌else◌,
}
use postgresparser.Tree.{Node, TokenStream, ctx_text, context_text}
use postgresparser.Syntax.Rules.{Rule, TokenType, rule_eq, token_type_eq}

mutual
  pub data Tree (A : Type 0) : Type 0 where
    terminal : TokenType → Text → Tree A
    rule : Rule → Option ℕ → Option ℕ → A → Trees A → Tree A

  pub data Trees (A : Type 0) : Type 0 where
    leaf : Trees A
    branch : Tree A → Trees A → Trees A

-- `GetText()`: the texts of the terminals
unfoldable mutual
  pub get_text : {A : Type 0} → Tree A → Text
  get_text (terminal t s) = s
  get_text (rule r i j a cs) = get_texts cs

  pub get_texts : {A : Type 0} → Trees A → Text
  get_texts leaf = []
  get_texts (branch c cs) = get_text c ++ get_texts cs

module _ {A : Type 0} where
  abbrev pub to_list : Trees A → List (Tree A)
  to_list leaf = []
  to_list (branch c cs) = c ∷ to_list cs

  -- `GetChildren()`
  abbrev pub get_children : Tree A → List (Tree A)
  get_children (terminal t s) = []
  get_children (rule r i j a cs) = to_list cs

  unfoldable pub is_rule : Rule → Tree A → Bool
  unfolding rule_eq
  is_rule r (terminal t s) = false
  is_rule r (rule q i j a cs) = rule_eq q r

  unfoldable pub is_token : TokenType → Tree A → Bool
  unfolding token_type_eq
  is_token t (terminal q s) = token_type_eq q t
  is_token t (rule r i j a cs) = false

  unfoldable pub find : (Tree A → Bool) → List (Tree A) → Option (Tree A)
  find test [] = none
  find test (c ∷ cs) = let rest = find test cs in if test c then some c else rest

  unfoldable pub find_all : (Tree A → Bool) → List (Tree A) → List (Tree A)
  find_all test [] = []
  find_all test (c ∷ cs) = let rest = find_all test cs in if test c then c ∷ rest else rest

  -- `X()`, on a context that may be nil; the code calls it on none that is
  unfoldable pub child : Rule → Tree A → Option (Tree A)
  unfolding find is_rule
  child r t = find (is_rule r) (get_children t)

  -- `AllX()`
  unfoldable pub children : Rule → Tree A → List (Tree A)
  unfolding find_all is_rule
  children r t = find_all (is_rule r) (get_children t)

  -- `X(i)`
  unfoldable pub nth_child : Rule → ℕ → Tree A → Option (Tree A)
  unfolding children
  nth_child r i t = get_elem? (children r t) i

  found : Option (Tree A) → Bool
  found none = false
  found (some c) = true

  -- `T() != nil`
  unfoldable pub has_token : TokenType → Tree A → Bool
  unfolding find is_token found
  has_token t c = found (find (is_token t) (get_children c))

  -- A step from a context that may be nil.
  infixl 6 ◌&>◌
  abbrev pub ◌&>◌ {ℓ} : {B : Type ℓ} → Option (Tree A) → (Tree A → Option B) → Option B
  none &> f = none
  some t &> f = f t

  -- A context as `ctxText` reads it.
  unfoldable pub node_of : Tree A → Node
  unfolding get_text
  node_of (terminal t s) = record { start = none; stop = none; text = s }
  node_of (rule r i j a cs) = record { start = i; stop = j; text = get_texts cs }

  unfoldable pub tree_text : TokenStream → Tree A → Text
  unfolding node_of
  tree_text tokens t = ctx_text tokens (some (node_of t))

  -- `strings.TrimSpace(ctxText(tokens, t))`
  unfoldable pub trimmed_text : TokenStream → Tree A → Text
  unfolding node_of
  trimmed_text tokens t = context_text tokens (some (node_of t))

  -- The same where `t` may be nil, for the empty text.
  unfoldable pub optional_text : TokenStream → Option (Tree A) → Text
  unfolding trimmed_text
  optional_text tokens none = []
  optional_text tokens (some t) = trimmed_text tokens t
