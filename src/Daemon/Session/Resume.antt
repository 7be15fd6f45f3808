-- ===== src/Daemon/Session/Resume.antt =====
-- `runCommand` and `resume`: the loop that runs logpoints and reports the stop or the exit.
pub mod Laws
pub mod View
pub mod Fuel
use golang_debugger_skill.Base.{
  ℕ, zero, suc, Bool, true, false, Option, none, some, List, [], ◌∷◌, ◌++◌, Text, text, contains,
  show_int, ℤ, if◌then◌else◌, M, Try, value, error, pure, fail, exhausted, returned, attempt, ◌>>=◌,
  ◌>>◌, Res,
}
use golang_debugger_skill.Dlv.Types.{DebuggerState, Breakpoint, Command, continue}
use golang_debugger_skill.Dlv.Client.{Outside, Reply, in_time, after_halt, silent}
use golang_debugger_skill.Daemon.State.{Session, World, Io, current, update, reset_view, find_log}
use golang_debugger_skill.Daemon.Session.Logpoint.{render_logpoint}
use golang_debugger_skill.Daemon.Session.Report.{stop_breakpoint}
use golang_debugger_skill.Daemon.Session.Stop.{render_stop, exit_report}

abbrev pub with_flag : Bool → Try DebuggerState → Try (DebuggerState × Bool)
with_flag halted (value st) = value (st, halted)
with_flag halted (error e) = error e

abbrev pub reply_result : Reply → Try (DebuggerState × Bool)
reply_result (in_time r) = with_flag false r
reply_result (after_halt r) = with_flag true r
reply_result silent = error (text "target did not stop after interrupt")

unfoldable pub has_exited : Text → Bool
unfolding contains text
has_exited e = contains e (text "has exited")

pub gone : Text
unfolding text
gone = text "program has exited; use restart or launch"

module _ (X : Outside) where
  abbrev received : Session → Reply × X.State → Res (DebuggerState × Bool) × World X
  received s (r, o) = returned (reply_result r) (record { session = s; outside = o })

  -- The state at the stop, and whether gdbg halted the target.
  unfoldable pub run_command : Command → Io X (DebuggerState × Bool)
  unfolding text
  run_command cmd w = received w.session (X.resume_command cmd w.outside)

  abbrev mark_exited : Io X (Unit {0})
  mark_exited = update X (λ s. record s { exited = true })

  -- A stop that is reported: the view is reset first.
  unfoldable pub report_stop : DebuggerState → Bool → List Text → Io X Text
  unfolding render_stop
  report_stop state halted log_lines = do update X reset_view; render_stop X state log_lines halted

  -- A stop at a logpoint writes its line and goes on.
  log_and_go : (List Text → Io X Text) → DebuggerState → List Text → Text → Io X Text
  unfolding render_logpoint
  log_and_go next state log_lines tmpl = do
    line ← render_logpoint X state tmpl
    next (log_lines ++ (line ∷ []))

  abbrev template_at : Session → Option Breakpoint → Option Text
  template_at s none = none
  template_at s (some bp) = find_log bp.id s.logpoints

  at_stop : (List Text → Io X Text) → List Text → DebuggerState → Bool → Session → Io X Text
  unfolding log_and_go report_stop exit_report stop_breakpoint find_log show_int text
  at_stop next log_lines state halted s =
      if state.exited
      then (do
        mark_exited
        exit_report X log_lines (text "process exited with status " ++ show_int state.exit_status))
      else elim (template_at s (stop_breakpoint state)) [
        | some tmpl ↦ log_and_go next state log_lines tmpl
        | none ↦ report_stop state halted log_lines
      ]

  unfoldable pub after_command :
      (List Text → Io X Text) → List Text → Try (DebuggerState × Bool) → Io X Text
  unfolding at_stop exit_report has_exited
  after_command next log_lines (value (state, halted)) = do
    s ← current X
    at_stop next log_lines state halted s
  after_command next log_lines (error e) =
      if has_exited e then (do mark_exited; exit_report X log_lines e) else fail e

  -- The loop of `resume`; one unit of fuel for each resume command.
  unfoldable pub resume_loop : ℕ → Command → List Text → Io X Text
  unfolding run_command after_command
  resume_loop zero cmd log_lines = exhausted
  resume_loop (suc fuel) cmd log_lines = do
    r ← attempt (run_command cmd)
    after_command (resume_loop fuel continue) log_lines r

  unfoldable pub resume : ℕ → Command → Io X Text
  unfolding resume_loop gone
  resume fuel cmd = do s ← current X; if s.exited then fail gone else resume_loop fuel cmd []
