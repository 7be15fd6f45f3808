-- ===== src/Daemon/Session/Keeps.antt =====
-- The reports change the frame, the locals shown last and the captured output, and nothing else.
use golang_debugger_skill.Base.{Bool, Option, none, some, List, [], ◌∷◌, Text, ℤ, panic}
use golang_debugger_skill.Dlv.Types.{DebuggerState, LoadConfig, Thread, Location}
use golang_debugger_skill.Dlv.Client.{Outside}
use golang_debugger_skill.Dlv.Proc.{Proc}
use golang_debugger_skill.Daemon.State.{Session, update, new_output}
use golang_debugger_skill.Daemon.Logic.{
  Keeps, Keeps-bind, Keeps-update, Keeps-new_output, keeps_rules,
}
use golang_debugger_skill.Daemon.Session.Source.{source_arrow}
use golang_debugger_skill.Daemon.Session.Logpoint.{Piece, plain, hole, render_logpoint, fill}
use golang_debugger_skill.Daemon.Session.Report.{Reason, panicking, reason_of}
use golang_debugger_skill.Daemon.Session.Stop.{
  current_vars, render_delta_locals, render_watch_exprs, render_panic, render_stop,
  report_never_hit, exit_report, select_frame, watch_lines, panic_part, stop_body,
}

-- A property that the reports leave alone: it does not speak of the frame, the locals shown last or
-- the captured output.
pub record IsStable (Q : Session → Type 0) : Type 0 where
  pub frame : (s : Session) (i : ℤ) → Q s → Q (record s { sel_frame = i })
  pub locals : (s : Session) (l : List (Text × Text)) → Q s → Q (record s { last_locals = l })
  pub output : (s : Session) (p : Proc) → Q s → Q (record s { proc = p })

module _ (X : Outside) {Q : Session → Type 0} (stable : IsStable Q) where
  show-Keeps : (l : List (Text × Text)) → Keeps X Q (update X (λ s. record s { last_locals = l }))
  show-Keeps l = Keeps-update _ (λ s h. stable.locals s l h)

  pub frame-Keeps : (i : ℤ) → Keeps X Q (update X (λ s. record s { sel_frame = i }))
  frame-Keeps i = Keeps-update _ (λ s h. stable.frame s i h)

  pub new_output-Keeps : Keeps X Q (new_output X)
  new_output-Keeps = Keeps-new_output stable.output

  source_arrow-Keeps : (file : Text) (line : ℤ) → Keeps X Q (source_arrow X file line)
  unfolding source_arrow
  source_arrow-Keeps file line = search keeps_rules

  fill-Keeps : (ps : List Piece) → Keeps X Q (fill X ps)
  unfolding fill
  fill-Keeps [] = search keeps_rules
  fill-Keeps (plain t ∷ ps) = Keeps-bind _ _ (fill-Keeps ps) (search keeps_rules)
  fill-Keeps (hole e ∷ ps) =
      Keeps-bind _ _ (search keeps_rules) (λ v. Keeps-bind _ _ (fill-Keeps ps) (search keeps_rules))

  pub render_logpoint-Keeps :
      (state : DebuggerState) (tmpl : Text) → Keeps X Q (render_logpoint X state tmpl)
  unfolding render_logpoint
  render_logpoint-Keeps state tmpl = search (keeps_rules, fill-Keeps)

  current_vars-Keeps : (cfg : LoadConfig) → Keeps X Q (current_vars X cfg)
  unfolding current_vars
  current_vars-Keeps cfg = search keeps_rules depth 7

  render_delta_locals-Keeps : Keeps X Q (render_delta_locals X)
  unfolding render_delta_locals
  render_delta_locals-Keeps = search (keeps_rules, current_vars-Keeps, show-Keeps) depth 7

  watch_lines-Keeps : (es : List Text) → Keeps X Q (watch_lines X es)
  unfolding watch_lines
  watch_lines-Keeps [] = search keeps_rules
  watch_lines-Keeps (e ∷ es) = Keeps-bind _ _ (search keeps_rules) λ s.
      Keeps-bind _ _ (search keeps_rules)
        λ v. Keeps-bind _ _ (watch_lines-Keeps es) (search keeps_rules)

  render_watch_exprs-Keeps : Keeps X Q (render_watch_exprs X)
  unfolding render_watch_exprs
  render_watch_exprs-Keeps = search (keeps_rules, watch_lines-Keeps)

  select_frame-Keeps : (o : Option (ℤ × Location)) → Keeps X Q (select_frame X o)
  unfolding select_frame
  select_frame-Keeps none = search keeps_rules
  select_frame-Keeps (some (i, fr)) = search (keeps_rules, frame-Keeps, source_arrow-Keeps)

  render_panic-Keeps : Keeps X Q (render_panic X)
  unfolding render_panic
  render_panic-Keeps = search (keeps_rules, select_frame-Keeps) depth 9

  panic_part-Keeps : (r : Reason) → Keeps X Q (panic_part X r)
  panic_part-Keeps panicking = render_panic-Keeps
  panic_part-Keeps _ = search keeps_rules

  stop_body-Keeps :
      (th : Thread) (state : DebuggerState) (log_lines : List Text) (reason : Reason)
      → Keeps X Q (stop_body X th state log_lines reason)
  unfolding stop_body
  stop_body-Keeps th state log_lines reason =
      search
        (
          keeps_rules, source_arrow-Keeps, panic_part-Keeps, render_delta_locals-Keeps,
          render_watch_exprs-Keeps, new_output-Keeps,
        )
        depth 12

  pub render_stop-Keeps :
      (state : DebuggerState) (log_lines : List Text) (halted : Bool)
      → Keeps X Q (render_stop X state log_lines halted)
  unfolding render_stop
  render_stop-Keeps state log_lines halted = by_thread state.current_thread
    where
      by_thread :
          (o : Option Thread)
          → Keeps X {A = Text} Q (elim o [
            | none ↦ panic
            | some th ↦ stop_body X th state log_lines (reason_of state halted)
          ])
      by_thread none = search keeps_rules
      by_thread (some th) = stop_body-Keeps th state log_lines _

  report_never_hit-Keeps : Keeps X Q (report_never_hit X)
  unfolding report_never_hit
  report_never_hit-Keeps = search keeps_rules

  pub exit_report-Keeps :
      (log_lines : List Text) (msg : Text) → Keeps X Q (exit_report X log_lines msg)
  unfolding exit_report
  exit_report-Keeps log_lines msg =
      search (keeps_rules, report_never_hit-Keeps, new_output-Keeps) depth 7
