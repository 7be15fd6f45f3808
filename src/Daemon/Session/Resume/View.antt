-- ===== src/Daemon/Session/Resume/View.antt =====
-- Where the view stands after a resume, and what an exit does to later resumes.
use golang_debugger_skill.Base.{
  ℕ, zero, suc, ◌≡◌, refl, ◌⊎◌, inl, inr, Bool, true, false, Option, none, some, List, [], ◌++◌,
  Text, text, show_int, Try, value, error, negsuc, fail, ◌>>=◌, ok, if◌then◌else◌, exhausted,
}
use golang_debugger_skill.Dlv.Types.{DebuggerState, Command, continue}
use golang_debugger_skill.Dlv.Client.{Outside}
use golang_debugger_skill.Daemon.State.{Session, World, Io, update}
use golang_debugger_skill.Daemon.Logic.{Gives, Gives-bind}
use golang_debugger_skill.Daemon.Session.Report.{stop_breakpoint}
use golang_debugger_skill.Daemon.Session.Stop.{exit_report}
use golang_debugger_skill.Daemon.Session.Keeps.{render_stop-Keeps, exit_report-Keeps}
use golang_debugger_skill.Daemon.Session.Resume.{
  resume_loop, resume, at_stop, after_command, report_stop, log_and_go, has_exited, template_at,
  mark_exited,
}
use golang_debugger_skill.Daemon.Session.Resume.Laws.{IsResumed, resume-Keeps}

-- The program has exited, or the view is at the goroutine that stopped.
abbrev pub Reported : Session → Type 0
Reported s = (s.exited ≡ true) ⊎ (s.sel_g ≡ negsuc 0)

module _ (X : Outside) where
  Gives-fail : {A : Type 0} (Q : Session → Type 0) (e : Text) → Gives X Q (fail {A = A} e)
  unfolding fail
  Gives-fail Q e = record { at = λ w a h. cc }

  Gives-exhausted : {A : Type 0} (Q : Session → Type 0) → Gives X Q (exhausted {A = A})
  unfolding exhausted
  Gives-exhausted Q = record { at = λ w a h. cc }

  Gives-if :
      {A : Type 0} {Q : Session → Type 0} (b : Bool) (m n : Io X A)
      → Gives X Q m
      → Gives X Q n
      → Gives X Q (if b then m else n)
  Gives-if true m n gm gn = gm
  Gives-if false m n gm gn = gn

  report_stop-Gives :
      (state : DebuggerState) (halted : Bool) (log_lines : List Text)
      → Gives X Reported (report_stop X state halted log_lines)
  unfolding report_stop update ◌>>=◌
  report_stop-Gives state halted log_lines = record {
    at = λ w a e. inr (
        (render_stop-Keeps X {Q = λ s. s.sel_g ≡ negsuc 0}
            (record { frame = λ s i h. h; locals = λ s l h. h; output = λ s p h. h }) state
            log_lines halted).at
          _ refl);
  }

  exit_report-Gives :
      (log_lines : List Text) (msg : Text)
      → Gives X Reported (mark_exited X >>= λ _. exit_report X log_lines msg)
  unfolding update ◌>>=◌
  exit_report-Gives log_lines msg = record {
    at = λ w a e. inl (
        (exit_report-Keeps X {Q = λ s. s.exited ≡ true}
            (record { frame = λ s i h. h; locals = λ s l h. h; output = λ s p h. h }) log_lines
            msg).at
          _ refl);
  }

  at_stop-Gives :
      (next : List Text → Io X Text) (log_lines : List Text) (state : DebuggerState) (halted : Bool)
      (s : Session)
      → ((ls : List Text) → Gives X Reported (next ls))
      → Gives X Reported (at_stop X next log_lines state halted s)
  unfolding at_stop
  at_stop-Gives next log_lines state halted s g =
      Gives-if state.exited _ _
        (exit_report-Gives log_lines
          (text "process exited with status " ++ show_int state.exit_status))
        (by_template (template_at X s (stop_breakpoint state)))
    where
      by_template :
          (o : Option Text)
          → Gives X {A = Text} Reported (elim o [
            | some tmpl ↦ log_and_go X next state log_lines tmpl
            | none ↦ report_stop X state halted log_lines
          ])
      by_template none = report_stop-Gives state halted log_lines
      by_template (some tmpl) = unfold log_and_go in Gives-bind _ _ (λ line. g _)

  after_command-Gives :
      (next : List Text → Io X Text) (log_lines : List Text) (r : Try (DebuggerState × Bool))
      → ((ls : List Text) → Gives X Reported (next ls))
      → Gives X Reported (after_command X next log_lines r)
  unfolding after_command
  after_command-Gives next log_lines (value (state, halted)) g =
      Gives-bind _ _ (λ s. at_stop-Gives next log_lines state halted s g)
  after_command-Gives next log_lines (error e) g =
      Gives-if (has_exited e) _ _ (exit_report-Gives log_lines e) (Gives-fail Reported e)

  resume_loop-Gives :
      (fuel : ℕ) (cmd : Command) (log_lines : List Text)
      → Gives X Reported (resume_loop X fuel cmd log_lines)
  unfolding resume_loop
  resume_loop-Gives zero cmd log_lines = Gives-exhausted Reported
  resume_loop-Gives (suc fuel) cmd log_lines =
      Gives-bind _ _ (λ r. after_command-Gives _ log_lines r (resume_loop-Gives fuel continue))

  resume-Gives : (fuel : ℕ) (cmd : Command) → Gives X Reported (resume X fuel cmd)
  unfolding resume
  resume-Gives fuel cmd =
      Gives-bind _ _
        (λ s. Gives-if s.exited _ _ (Gives-fail Reported _) (resume_loop-Gives fuel cmd []))

-- What no report changes: how the target was launched, the watch expressions and the logpoints.
pub record SameSetup (s t : Session) : Type 0 where
  pub mode : t.mode ≡ s.mode
  pub target : t.target ≡ s.target
  pub target_args : t.target_args ≡ s.target_args
  pub watch_exprs : t.watch_exprs ≡ s.watch_exprs
  pub logpoints : t.logpoints ≡ s.logpoints

SameSetup-IsResumed : (s : Session) → IsResumed (SameSetup s)
SameSetup-IsResumed s = record {
  stable = record {
    frame = λ t i h. record {
      mode = h.mode;
      target = h.target;
      target_args = h.target_args;
      watch_exprs = h.watch_exprs;
      logpoints = h.logpoints;
    };
    locals = λ t l h. record {
      mode = h.mode;
      target = h.target;
      target_args = h.target_args;
      watch_exprs = h.watch_exprs;
      logpoints = h.logpoints;
    };
    output = λ t p h. record {
      mode = h.mode;
      target = h.target;
      target_args = h.target_args;
      watch_exprs = h.watch_exprs;
      logpoints = h.logpoints;
    };
  };
  reset = λ t h. record {
    mode = h.mode;
    target = h.target;
    target_args = h.target_args;
    watch_exprs = h.watch_exprs;
    logpoints = h.logpoints;
  };
  marked = λ t h. record {
    mode = h.mode;
    target = h.target;
    target_args = h.target_args;
    watch_exprs = h.watch_exprs;
    logpoints = h.logpoints;
  };
}

-- A continue or a step that returns a report has noted that the program exited, or has put the
-- view at the goroutine that stopped. However it ends, the launch settings, the watch expressions
-- and the logpoints are as before.
pub resume-Reported :
    (X : Outside) (fuel : ℕ) (cmd : Command) (w : World X)
    → ((report : Text)
        → (resume X fuel cmd w).0 ≡ ok report
        → Reported (resume X fuel cmd w).1.session)
      × SameSetup w.session (resume X fuel cmd w).1.session
resume-Reported X fuel cmd w = (
  λ report e. (resume-Gives X fuel cmd).at w report e,
  (resume-Keeps X (SameSetup-IsResumed w.session) fuel cmd).at w (record {
    mode = refl;
    target = refl;
    target_args = refl;
    watch_exprs = refl;
    logpoints = refl;
  }),
)
