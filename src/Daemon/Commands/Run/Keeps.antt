-- ===== src/Daemon/Commands/Run/Keeps.antt =====
-- `step`, `until` and `pause` change what a resume changes.
use golang_debugger_skill.Base.{ℕ, Option, none, some, List, [], ◌∷◌, Text}
use golang_debugger_skill.Dlv.Types.{Command}
use golang_debugger_skill.Dlv.Client.{Outside}
use golang_debugger_skill.Daemon.State.{Session, update, reset_view}
use golang_debugger_skill.Daemon.Logic.{Keeps, Keeps-update, keeps_rules}
use golang_debugger_skill.Daemon.Session.Keeps.{render_stop-Keeps}
use golang_debugger_skill.Daemon.Session.Resume.Laws.{resume-Keeps}
use golang_debugger_skill.Daemon.Commands.Steady.{IsSteady}
use golang_debugger_skill.Daemon.Commands.Breaks.Keeps.{create_breakpoint-Keeps}
use golang_debugger_skill.Daemon.Commands.Run.{
  step_by, step_command, step_kind, cmd_step, cmd_until, cmd_pause,
}

module _ (X : Outside) {Q : Session → Type 0} (steady : IsSteady Q) (fuel : ℕ) where
  step_by-Keeps : (cmd : Option Command) → Keeps X Q (step_by X fuel cmd)
  unfolding step_by
  step_by-Keeps none = search keeps_rules
  step_by-Keeps (some cmd) = resume-Keeps X steady.resumed fuel cmd

  pub cmd_step-Keeps : (args : List Text) → Keeps X Q (cmd_step X fuel args)
  unfolding cmd_step
  cmd_step-Keeps args = step_by-Keeps (step_command (step_kind args))

  pub cmd_until-Keeps : (args : List Text) → Keeps X Q (cmd_until X fuel args)
  unfolding cmd_until
  cmd_until-Keeps [] = search keeps_rules
  cmd_until-Keeps (loc ∷ []) =
      search (keeps_rules, create_breakpoint-Keeps X steady, resume-Keeps X steady.resumed) depth 10
  cmd_until-Keeps (a ∷ b ∷ args) = search keeps_rules

module _ (X : Outside) {Q : Session → Type 0} (steady : IsSteady Q) where
  reset-Keeps : Keeps X Q (update X reset_view)
  reset-Keeps = Keeps-update _ steady.resumed.reset

  pub cmd_pause-Keeps : Keeps X Q (cmd_pause X)
  unfolding cmd_pause
  cmd_pause-Keeps = search (keeps_rules, reset-Keeps, render_stop-Keeps X steady.resumed.stable)
