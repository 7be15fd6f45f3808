-- ===== src/Daemon/Commands/WatchExpr/Keeps.antt =====
-- `watch-expr` changes only the watch expressions.
use golang_debugger_skill.Base.{◌++◌, Option, none, some, List, [], ◌∷◌, Text, text, text_eq, join}
use golang_debugger_skill.Dlv.Client.{Outside}
use golang_debugger_skill.Daemon.State.{Session, update}
use golang_debugger_skill.Daemon.Logic.{
  Keeps, Keeps-bind, Keeps-current, Keeps-if, Keeps-update, keeps_rules,
}
use golang_debugger_skill.Daemon.Commands.Steady.{IsSteady}
use golang_debugger_skill.Daemon.Commands.WatchExpr.{add_expr, remove_expr, cmd_watch_expr}

module _ (X : Outside) {Q : Session → Type 0} (steady : IsSteady Q) where
  watches-Keeps :
      (f : Session → List Text) → Keeps X Q (update X (λ s. record s { watch_exprs = f s }))
  watches-Keeps f = Keeps-update _ (λ s h. steady.watches s (f s) h)

  add_expr-Keeps : (e : Text) → Keeps X Q (add_expr X e)
  add_expr-Keeps [] = search keeps_rules
  add_expr-Keeps (c ∷ e) =
      Keeps-bind _ _ (watches-Keeps (λ s. s.watch_exprs ++ ((c ∷ e) ∷ []))) (search keeps_rules)

  remove_expr-Keeps :
      (e : Text) (o : Option (List Text)) → Keeps X Q (remove_expr X X.printable e o)
  remove_expr-Keeps e none = search keeps_rules
  remove_expr-Keeps e (some rest) = Keeps-bind _ _ (watches-Keeps (λ _. rest)) (search keeps_rules)

  pub cmd_watch_expr-Keeps : (args : List Text) → Keeps X Q (cmd_watch_expr X args)
  unfolding cmd_watch_expr
  cmd_watch_expr-Keeps [] = search keeps_rules
  cmd_watch_expr-Keeps (what ∷ words) = Keeps-bind _ _ Keeps-current λ s.
      Keeps-if (text_eq what (text "add")) _ _ (λ _. add_expr-Keeps (join (b' ' ∷ []) words))
        λ _.
          Keeps-if (text_eq what (text "rm")) _ _
            (λ _. remove_expr-Keeps (join (b' ' ∷ []) words) _)
            λ _. Keeps-if (text_eq what (text "list")) _ _ (search keeps_rules) (search keeps_rules)
