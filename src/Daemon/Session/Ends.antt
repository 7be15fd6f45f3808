-- ===== src/Daemon/Session/Ends.antt =====
-- Every report comes to an end.
use golang_debugger_skill.Base.{Bool, Option, none, some, List, [], ◌∷◌, Text, ℤ, panic}
use golang_debugger_skill.Dlv.Types.{DebuggerState, LoadConfig, Location, Thread}
use golang_debugger_skill.Dlv.Client.{Outside}
use golang_debugger_skill.Daemon.Logic.Total.{Ends, Ends-bind, ends_rules}
use golang_debugger_skill.Daemon.Session.Source.{source_arrow}
use golang_debugger_skill.Daemon.Session.Logpoint.{Piece, plain, hole, fill, render_logpoint}
use golang_debugger_skill.Daemon.Session.Report.{Reason, panicking, reason_of}
use golang_debugger_skill.Daemon.Session.Stop.{
  current_vars, render_delta_locals, render_watch_exprs, render_panic, render_stop,
  report_never_hit, exit_report, select_frame, watch_lines, panic_part, stop_body,
}

module _ (X : Outside) where
  source_arrow-Ends : (file : Text) (line : ℤ) → Ends X (source_arrow X file line)
  unfolding source_arrow
  source_arrow-Ends file line = search ends_rules

  fill-Ends : (ps : List Piece) → Ends X (fill X ps)
  unfolding fill
  fill-Ends [] = search ends_rules
  fill-Ends (plain t ∷ ps) = Ends-bind _ _ (fill-Ends ps) (search ends_rules)
  fill-Ends (hole e ∷ ps) =
      Ends-bind _ _ (search ends_rules) (λ v. Ends-bind _ _ (fill-Ends ps) (search ends_rules))

  pub render_logpoint-Ends :
      (state : DebuggerState) (tmpl : Text) → Ends X (render_logpoint X state tmpl)
  unfolding render_logpoint
  render_logpoint-Ends state tmpl = search (ends_rules, fill-Ends)

  pub current_vars-Ends : (cfg : LoadConfig) → Ends X (current_vars X cfg)
  unfolding current_vars
  current_vars-Ends cfg = search ends_rules depth 7

  render_delta_locals-Ends : Ends X (render_delta_locals X)
  unfolding render_delta_locals
  render_delta_locals-Ends = search (ends_rules, current_vars-Ends) depth 7

  watch_lines-Ends : (es : List Text) → Ends X (watch_lines X es)
  unfolding watch_lines
  watch_lines-Ends [] = search ends_rules
  watch_lines-Ends (e ∷ es) = Ends-bind _ _ (search ends_rules) λ s.
      Ends-bind _ _ (search ends_rules) λ v. Ends-bind _ _ (watch_lines-Ends es) (search ends_rules)

  render_watch_exprs-Ends : Ends X (render_watch_exprs X)
  unfolding render_watch_exprs
  render_watch_exprs-Ends = search (ends_rules, watch_lines-Ends)

  select_frame-Ends : (o : Option (ℤ × Location)) → Ends X (select_frame X o)
  unfolding select_frame
  select_frame-Ends none = search ends_rules
  select_frame-Ends (some (i, fr)) = search (ends_rules, source_arrow-Ends)

  render_panic-Ends : Ends X (render_panic X)
  unfolding render_panic
  render_panic-Ends = search (ends_rules, select_frame-Ends) depth 9

  panic_part-Ends : (r : Reason) → Ends X (panic_part X r)
  panic_part-Ends panicking = render_panic-Ends
  panic_part-Ends _ = search ends_rules

  stop_body-Ends :
      (th : Thread) (state : DebuggerState) (log_lines : List Text) (reason : Reason)
      → Ends X (stop_body X th state log_lines reason)
  unfolding stop_body
  stop_body-Ends th state log_lines reason =
      search
        (
          ends_rules, source_arrow-Ends, panic_part-Ends, render_delta_locals-Ends,
          render_watch_exprs-Ends,
        )
        depth 12

  pub render_stop-Ends :
      (state : DebuggerState) (log_lines : List Text) (halted : Bool)
      → Ends X (render_stop X state log_lines halted)
  unfolding render_stop
  render_stop-Ends state log_lines halted = by_thread state.current_thread
    where
      by_thread :
          (o : Option Thread)
          → Ends X {A = Text} (elim o [
            | none ↦ panic
            | some th ↦ stop_body X th state log_lines (reason_of state halted)
          ])
      by_thread none = search ends_rules
      by_thread (some th) = stop_body-Ends th state log_lines _

  pub report_never_hit-Ends : Ends X (report_never_hit X)
  unfolding report_never_hit
  report_never_hit-Ends = search ends_rules

  pub exit_report-Ends : (log_lines : List Text) (msg : Text) → Ends X (exit_report X log_lines msg)
  unfolding exit_report
  exit_report-Ends log_lines msg = search (ends_rules, report_never_hit-Ends) depth 7
