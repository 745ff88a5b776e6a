-- ===== src/Comment/Frame.antt =====
-- COMMENT adds tables and one action to the query, and changes nothing else.
use postgresparser.Prelude.{Bool-cases, inl, inr, Option, none, some, Text}
use postgresparser.Strings.{Unicode}
use postgresparser.Ir.{QueryFields, DdlAction}
use postgresparser.Tree.{Node, TokenStream}
use postgresparser.Comment.{
  CommentStmt, comment_column, comment_any_name, comment_type, comment_name, comment_object,
  populate_comment_stmt,
}
use postgresparser.Ddl.Frame.{Extends, Adds, Extends-actions, Extends-both}

module _ ⦃u : Unicode⦄ (tokens : TokenStream) (q : QueryFields) where
  type-Extends : (ctx : CommentStmt) (a : DdlAction) → Extends q (comment_type tokens q ctx a)
  unfolding comment_type
  type-Extends ctx a = Extends-actions q _

  name-Extends :
      (ctx : CommentStmt) (t n : Option Node) (a : DdlAction)
      → Extends q (comment_name tokens q ctx t n a)
  unfolding comment_name
  name-Extends ctx (some t) (some n) a = Extends-actions q _
  name-Extends ctx (some t) none a = type-Extends ctx a
  name-Extends ctx none n a = type-Extends ctx a

  column-Extends : (raw : Text) (a : DdlAction) → Extends q (comment_column tokens q raw a)
  unfolding comment_column
  column-Extends raw a = Extends-both q _ _

  object-Extends :
      (ctx : CommentStmt) (name t : Option Node) (a : DdlAction)
      → Extends q (comment_object tokens q ctx name t a)
  unfolding comment_object comment_any_name
  object-Extends ctx none t a = name-Extends ctx ctx.object_type_name ctx.name a
  object-Extends ctx (some n) none a = elim (Bool-cases ctx.column_kw) [
    | inl e ↦ simp e (column-Extends _ a)
    | inr e ↦ simp e (name-Extends ctx ctx.object_type_name ctx.name a)
  ]
  object-Extends ctx (some n) (some t) a = elim (Bool-cases ctx.column_kw) [
    | inl e ↦ simp e (column-Extends _ a)
    | inr e ↦ simp e (Extends-both q _ _)
  ]

  pub comment_stmt-Adds : (ctx : CommentStmt) → Adds q (populate_comment_stmt tokens q (some ctx))
  unfolding populate_comment_stmt
  comment_stmt-Adds ctx = object-Extends ctx ctx.any_name ctx.object_type_any_name _
