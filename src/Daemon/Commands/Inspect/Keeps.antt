-- ===== src/Daemon/Commands/Inspect/Keeps.antt =====
-- `vars` and `eval` do not change the session.
use golang_debugger_skill.Base.{List, [], ◌∷◌, Text}
use golang_debugger_skill.Dlv.Types.{LoadConfig}
use golang_debugger_skill.Dlv.Client.{Outside}
use golang_debugger_skill.Daemon.State.{Session}
use golang_debugger_skill.Daemon.Logic.{Keeps, Keeps-bind, keeps_rules}
use golang_debugger_skill.Daemon.Session.Stop.{current_vars}
use golang_debugger_skill.Daemon.Commands.Inspect.{load_depth, cmd_vars, cmd_eval, eval_all}

module _ (X : Outside) (Q : Session → Type 0) where
  load_depth-Keeps : (d : Text) → Keeps X Q (load_depth X d)
  unfolding load_depth
  load_depth-Keeps [] = search keeps_rules
  load_depth-Keeps (c ∷ d) = search keeps_rules

  pub current_vars-Keeps : (cfg : LoadConfig) → Keeps X Q (current_vars X cfg)
  unfolding current_vars
  current_vars-Keeps cfg = search keeps_rules depth 7

  pub cmd_vars-Keeps : (args : List Text) → Keeps X Q (cmd_vars X args)
  unfolding cmd_vars
  cmd_vars-Keeps args = search (keeps_rules, load_depth-Keeps, current_vars-Keeps) depth 8

  eval_all-Keeps : (es : List Text) → Keeps X Q (eval_all X es)
  unfolding eval_all
  eval_all-Keeps [] = search keeps_rules
  eval_all-Keeps (e ∷ es) = Keeps-bind _ _ (search keeps_rules) λ s.
      Keeps-bind _ _ (search keeps_rules)
        λ v. Keeps-bind _ _ (eval_all-Keeps es) (search keeps_rules)

  pub cmd_eval-Keeps : (args : List Text) → Keeps X Q (cmd_eval X args)
  unfolding cmd_eval
  cmd_eval-Keeps [] = search keeps_rules
  cmd_eval-Keeps (a ∷ args) = search (keeps_rules, eval_all-Keeps) depth 7
