-- ===== src/Daemon/Commands/Steady.antt =====
-- What the commands may change of a session besides what the reports change.
use golang_debugger_skill.Base.{List, Text, ℤ, pos}
use golang_debugger_skill.Daemon.State.{Session}
use golang_debugger_skill.Daemon.Session.Resume.Laws.{IsResumed}

-- A property that speaks of none of the view, the watch expressions, the logpoints, the locals shown
-- last and the captured output, and that an exit does not end.
pub record IsSteady (Q : Session → Type 0) : Type 0 where
  pub resumed : IsResumed Q
  pub view : (s : Session) (g : ℤ) → Q s → Q (record s { sel_g = g; sel_frame = pos 0 })
  pub watches : (s : Session) (es : List Text) → Q s → Q (record s { watch_exprs = es })
  pub logs : (s : Session) (m : List (ℤ × Text)) → Q s → Q (record s { logpoints = m })
