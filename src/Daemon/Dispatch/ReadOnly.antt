-- ===== src/Daemon/Dispatch/ReadOnly.antt =====
-- The commands that only look.
use golang_debugger_skill.Base.{◌≡◌, refl, ℕ, Bool, true, false, List, Text}
use golang_debugger_skill.Dlv.Client.{Outside}
use golang_debugger_skill.Daemon.State.{Session, World}
use golang_debugger_skill.Daemon.Logic.{Keeps, keeps_rules}
use golang_debugger_skill.Daemon.Commands.Breaks.{cmd_breaks}
use golang_debugger_skill.Daemon.Commands.Inspect.Keeps.{cmd_vars-Keeps, cmd_eval-Keeps}
use golang_debugger_skill.Daemon.Commands.Select.{cmd_goroutines}
use golang_debugger_skill.Daemon.Commands.Select.Laws.{cmd_list-Keeps, cmd_bt-Keeps}
use golang_debugger_skill.Daemon.Dispatch.{
  Name, breaks, vars, eval, bt, list, goroutines, session_command,
}

-- The commands that report on the target and on the session.
abbrev pub looks : Name → Bool
looks breaks = true
looks vars = true
looks eval = true
looks bt = true
looks list = true
looks goroutines = true
looks _ = false

module _ (X : Outside) (Q : Session → Type 0) where
  cmd_breaks-Keeps : Keeps X Q (cmd_breaks X)
  unfolding cmd_breaks
  cmd_breaks-Keeps = search keeps_rules depth 7

  pub cmd_goroutines-Keeps : Keeps X Q (cmd_goroutines X)
  unfolding cmd_goroutines
  cmd_goroutines-Keeps = search keeps_rules depth 7

  looks-Keeps :
      (fuel : ℕ) (name : Name) (cmd : Text) (args : List Text)
      → looks name ≡ true
      → Keeps X Q (session_command X fuel name cmd args)
  unfolding session_command
  looks-Keeps fuel breaks cmd args h = cmd_breaks-Keeps
  looks-Keeps fuel vars cmd args h = cmd_vars-Keeps X Q args
  looks-Keeps fuel eval cmd args h = cmd_eval-Keeps X Q args
  looks-Keeps fuel bt cmd args h = cmd_bt-Keeps X Q args
  looks-Keeps fuel list cmd args h = cmd_list-Keeps X Q
  looks-Keeps fuel goroutines cmd args h = cmd_goroutines-Keeps
  looks-Keeps fuel _ cmd args h = cc

-- The commands breaks, vars, eval, bt, list and goroutines leave the session as it is, also where
-- they end in an error.
pub session_command-looks :
    (X : Outside) (fuel : ℕ) (name : Name) (cmd : Text) (args : List Text) (w : World X)
    → looks name ≡ true
    → (session_command X fuel name cmd args w).1.session ≡ w.session
session_command-looks X fuel name cmd args w h =
    (looks-Keeps X (λ s. s ≡ w.session) fuel name cmd args h).at w refl
