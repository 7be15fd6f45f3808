-- ===== src/Daemon/Session/Resume/Laws.antt =====
-- `resume` keeps what the reports keep, if a reset of the view and the note of an exit keep it.
use golang_debugger_skill.Base.{
  ℕ, zero, suc, Bool, true, Option, none, some, List, [], ◌++◌, Text, Try, value, error, ◌>>=◌,
  text, show_int,
}
use golang_debugger_skill.Dlv.Types.{DebuggerState, Command, continue}
use golang_debugger_skill.Dlv.Client.{Outside}
use golang_debugger_skill.Daemon.State.{Session, Io, reset_view}
use golang_debugger_skill.Daemon.Logic.{
  Keeps, Keeps-bind, Keeps-update, Keeps-current, Keeps-if, Keeps-fail, Keeps-exhausted,
  Keeps-attempt, Keeps-returned,
}
use golang_debugger_skill.Daemon.Session.Report.{stop_breakpoint}
use golang_debugger_skill.Daemon.Session.Stop.{exit_report}
use golang_debugger_skill.Daemon.Session.Resume.{
  run_command, resume_loop, resume, at_stop, after_command, report_stop, log_and_go, has_exited,
  template_at, reply_result, mark_exited,
}
use golang_debugger_skill.Daemon.Session.Keeps.{
  IsStable, render_logpoint-Keeps, render_stop-Keeps, exit_report-Keeps,
}

-- What the loop of `resume` keeps: besides the reports it resets the view and notes an exit.
pub record IsResumed (Q : Session → Type 0) : Type 0 where
  pub stable : IsStable Q
  pub reset : (s : Session) → Q s → Q (reset_view s)
  pub marked : (s : Session) → Q s → Q (record s { exited = true })

module _ (X : Outside) {Q : Session → Type 0} (resumed : IsResumed Q) where
  pub run_command-Keeps : (cmd : Command) → Keeps X Q (run_command X cmd)
  unfolding run_command
  run_command-Keeps cmd = record {
    at = λ w h.
        (Keeps-returned {X = X} {Q = Q} (reply_result (X.resume_command cmd w.outside).0)).at _ h;
  }

  report_stop-Keeps :
      (state : DebuggerState) (halted : Bool) (log_lines : List Text)
      → Keeps X Q (report_stop X state halted log_lines)
  unfolding report_stop
  report_stop-Keeps state halted log_lines =
      Keeps-bind _ _ (Keeps-update _ resumed.reset)
        (λ _. render_stop-Keeps X resumed.stable state log_lines halted)

  reported_exit-Keeps :
      (log_lines : List Text) (msg : Text)
      → Keeps X Q (mark_exited X >>= λ _. exit_report X log_lines msg)
  reported_exit-Keeps log_lines msg =
      Keeps-bind _ _ (Keeps-update _ resumed.marked)
        (λ _. exit_report-Keeps X resumed.stable log_lines msg)

  log_and_go-Keeps :
      (next : List Text → Io X Text) (state : DebuggerState) (log_lines : List Text) (tmpl : Text)
      → ((ls : List Text) → Keeps X Q (next ls))
      → Keeps X Q (log_and_go X next state log_lines tmpl)
  unfolding log_and_go
  log_and_go-Keeps next state log_lines tmpl k =
      Keeps-bind _ _ (render_logpoint-Keeps X resumed.stable state tmpl) (λ line. k _)

  at_stop-Keeps :
      (next : List Text → Io X Text) (log_lines : List Text) (state : DebuggerState) (halted : Bool)
      (s : Session)
      → ((ls : List Text) → Keeps X Q (next ls))
      → Keeps X Q (at_stop X next log_lines state halted s)
  unfolding at_stop
  at_stop-Keeps next log_lines state halted s k =
      Keeps-if state.exited _ _
        (λ _.
          reported_exit-Keeps log_lines
            (text "process exited with status " ++ show_int state.exit_status))
        (λ _. by_template (template_at X s (stop_breakpoint state)))
    where
      by_template :
          (o : Option Text)
          → Keeps X {A = Text} Q (elim o [
            | some tmpl ↦ log_and_go X next state log_lines tmpl
            | none ↦ report_stop X state halted log_lines
          ])
      by_template none = report_stop-Keeps state halted log_lines
      by_template (some tmpl) = log_and_go-Keeps next state log_lines tmpl k

  after_command-Keeps :
      (next : List Text → Io X Text) (log_lines : List Text) (r : Try (DebuggerState × Bool))
      → ((ls : List Text) → Keeps X Q (next ls))
      → Keeps X Q (after_command X next log_lines r)
  unfolding after_command
  after_command-Keeps next log_lines (value (state, halted)) k =
      Keeps-bind _ _ Keeps-current (λ s. at_stop-Keeps next log_lines state halted s k)
  after_command-Keeps next log_lines (error e) k =
      Keeps-if (has_exited e) _ _ (λ _. reported_exit-Keeps log_lines e) (λ _. Keeps-fail e)

  resume_loop-Keeps :
      (fuel : ℕ) (cmd : Command) (log_lines : List Text)
      → Keeps X Q (resume_loop X fuel cmd log_lines)
  unfolding resume_loop
  resume_loop-Keeps zero cmd log_lines = Keeps-exhausted
  resume_loop-Keeps (suc fuel) cmd log_lines =
      Keeps-bind _ _ (Keeps-attempt _ (run_command-Keeps cmd))
        (λ r. after_command-Keeps _ log_lines r (resume_loop-Keeps fuel continue))

  pub resume-Keeps : (fuel : ℕ) (cmd : Command) → Keeps X Q (resume X fuel cmd)
  unfolding resume
  resume-Keeps fuel cmd =
      Keeps-bind _ _ Keeps-current
        (λ s. Keeps-if s.exited _ _ (λ _. Keeps-fail _) (λ _. resume_loop-Keeps fuel cmd []))
