-- ===== src/Syntax/Walk.antt =====
-- `antlr.ParseTreeWalkerDefault.Walk`: `enter` on a rule context, then its children, then `exit`. The
-- listeners of the code do nothing on terminals.
use postgresparser.Syntax.{Tree, Trees, terminal, rule, leaf, branch}

module _ {A S : Type 0} (enter exit : Tree A → S → S) where
  unfoldable mutual
    pub walk : Tree A → S → S
    walk (terminal t s) st = st
    walk (rule r i j a cs) st = exit (rule r i j a cs) (walk_all cs (enter (rule r i j a cs) st))

    pub walk_all : Trees A → S → S
    walk_all leaf st = st
    walk_all (branch c cs) st = walk_all cs (walk c st)
