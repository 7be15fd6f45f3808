-- ===== src/Daemon/Commands/Breaks/Keeps.antt =====
-- The breakpoint commands change only the logpoints.
use golang_debugger_skill.Base.{Bool, Option, none, some, List, [], ◌∷◌, Text, ℤ}
use golang_debugger_skill.Dlv.Types.{Breakpoint}
use golang_debugger_skill.Dlv.Client.{Outside}
use golang_debugger_skill.Daemon.Args.Flags.{Flags}
use golang_debugger_skill.Daemon.State.{Session, update, delete_log}
use golang_debugger_skill.Daemon.Logic.{Keeps, Keeps-update, keeps_rules}
use golang_debugger_skill.Daemon.Commands.Steady.{IsSteady}
use golang_debugger_skill.Daemon.Commands.Breaks.{
  remember, location, create_breakpoint, cmd_break, cmd_breaks, cmd_break_rm, toggle,
  cmd_break_toggle, set_watch, cmd_watch,
}

module _ (X : Outside) {Q : Session → Type 0} (steady : IsSteady Q) where
  remember-Keeps : (id : ℤ) (log : Text) → Keeps X Q (remember X id log)
  remember-Keeps id [] = search keeps_rules
  remember-Keeps id (c ∷ log) = Keeps-update _ (λ s h. steady.logs s _ h)

  pub create_breakpoint-Keeps :
      (loc cond hit log : Text) → Keeps X Q (create_breakpoint X loc cond hit log)
  unfolding create_breakpoint
  create_breakpoint-Keeps loc cond hit log = search (keeps_rules, remember-Keeps)

  location-Keeps : (fn : Text) (words : List Text) → Keeps X Q (location X fn words)
  location-Keeps (c ∷ fn) words = search keeps_rules
  location-Keeps [] [] = search keeps_rules
  location-Keeps [] (loc ∷ []) = search keeps_rules
  location-Keeps [] (a ∷ b ∷ words) = search keeps_rules

  pub cmd_break-Keeps : (args : List Text) → Keeps X Q (cmd_break X args)
  unfolding cmd_break
  cmd_break-Keeps args = search (keeps_rules, location-Keeps, create_breakpoint-Keeps) depth 9

  delete-Keeps :
      (id : ℤ) → Keeps X Q (update X (λ s. record s { logpoints = delete_log id s.logpoints }))
  delete-Keeps id = Keeps-update _ (λ s h. steady.logs s _ h)

  pub cmd_break_rm-Keeps : (args : List Text) → Keeps X Q (cmd_break_rm X args)
  unfolding cmd_break_rm
  cmd_break_rm-Keeps [] = search keeps_rules
  cmd_break_rm-Keeps (arg ∷ []) = search (keeps_rules, delete-Keeps) depth 9
  cmd_break_rm-Keeps (a ∷ b ∷ args) = search keeps_rules

module _ (X : Outside) (Q : Session → Type 0) where
  pub cmd_breaks-Keeps : Keeps X Q (cmd_breaks X)
  unfolding cmd_breaks
  cmd_breaks-Keeps = search keeps_rules depth 7

  toggle-Keeps :
      (disable : Bool) (id : ℤ) (bp : Option Breakpoint) → Keeps X Q (toggle X disable id bp)
  unfolding toggle
  toggle-Keeps disable id none = search keeps_rules
  toggle-Keeps disable id (some bp) = search keeps_rules

  pub cmd_break_toggle-Keeps :
      (disable : Bool) (args : List Text) → Keeps X Q (cmd_break_toggle X disable args)
  unfolding cmd_break_toggle
  cmd_break_toggle-Keeps disable [] = search keeps_rules
  cmd_break_toggle-Keeps disable (arg ∷ []) = search (keeps_rules, toggle-Keeps) depth 8
  cmd_break_toggle-Keeps disable (a ∷ b ∷ args) = search keeps_rules

  set_watch-Keeps : (flags : Flags) (words : List Text) → Keeps X Q (set_watch X flags words)
  unfolding set_watch
  set_watch-Keeps flags [] = search keeps_rules
  set_watch-Keeps flags (name ∷ []) = search keeps_rules depth 8
  set_watch-Keeps flags (a ∷ b ∷ words) = search keeps_rules

  pub cmd_watch-Keeps : (args : List Text) → Keeps X Q (cmd_watch X args)
  unfolding cmd_watch
  cmd_watch-Keeps args = search (keeps_rules, set_watch-Keeps)
