-- ===== src/Daemon/Commands/Ends.antt =====
-- The commands of a session come to an end, if a resume does.
use golang_debugger_skill.Base.{
  ℕ, ℤ, pos, negsuc, Bool, Option, none, some, List, [], ◌∷◌, Text, text, Try, value, error,
  get_elem?, ◌++◌, show_int, fail, pure,
}
use golang_debugger_skill.Dlv.Types.{Breakpoint, Command, DebuggerState, Location}
use golang_debugger_skill.Dlv.Client.{Outside}
use golang_debugger_skill.Daemon.Args.Flags.{Flags}
use golang_debugger_skill.Daemon.State.{Session}
use golang_debugger_skill.Daemon.Logic.Total.{Ends, Ends-bind, Ends-update, ends_rules}
use golang_debugger_skill.Daemon.Session.Source.{source_context}
use golang_debugger_skill.Daemon.Session.Ends.{current_vars-Ends, render_stop-Ends}
use golang_debugger_skill.Daemon.Session.Resume.{resume}
use golang_debugger_skill.Daemon.Commands.Breaks.{
  remember, location, create_breakpoint, cmd_break, cmd_breaks, cmd_break_rm, toggle,
  cmd_break_toggle, set_watch, cmd_watch,
}
use golang_debugger_skill.Daemon.Commands.Run.{
  step_by, step_command, step_kind, cmd_step, cmd_until, cmd_pause, restart_by, cmd_restart,
}
use golang_debugger_skill.Daemon.Commands.Inspect.{
  load_depth, cmd_vars, cmd_eval, eval_all, set_failed, then_continue, assign_value, cmd_set,
  show_state, cmd_state,
}
use golang_debugger_skill.Daemon.Commands.WatchExpr.{add_expr, remove_expr, cmd_watch_expr}
use golang_debugger_skill.Daemon.Commands.Select.{
  bt_depth, cmd_bt, frame_at, current_location, cmd_list, cmd_goroutines, cmd_goroutine,
  numbered_frame, select_frame, cmd_frame,
}

module _ (X : Outside) where
  remember-Ends : (id : ℤ) (log : Text) → Ends X (remember X id log)
  remember-Ends id [] = search ends_rules
  remember-Ends id (c ∷ log) = Ends-update _

  pub create_breakpoint-Ends :
      (loc cond hit log : Text) → Ends X (create_breakpoint X loc cond hit log)
  unfolding create_breakpoint
  create_breakpoint-Ends loc cond hit log = search (ends_rules, remember-Ends)

  location-Ends : (fn : Text) (words : List Text) → Ends X (location X fn words)
  location-Ends (c ∷ fn) words = search ends_rules
  location-Ends [] [] = search ends_rules
  location-Ends [] (loc ∷ []) = search ends_rules
  location-Ends [] (a ∷ b ∷ words) = search ends_rules

  pub cmd_break-Ends : (args : List Text) → Ends X (cmd_break X args)
  unfolding cmd_break
  cmd_break-Ends args = search (ends_rules, location-Ends, create_breakpoint-Ends) depth 9

  pub cmd_break_rm-Ends : (args : List Text) → Ends X (cmd_break_rm X args)
  unfolding cmd_break_rm
  cmd_break_rm-Ends [] = search ends_rules
  cmd_break_rm-Ends (arg ∷ []) = search ends_rules depth 9
  cmd_break_rm-Ends (a ∷ b ∷ args) = search ends_rules

  pub cmd_breaks-Ends : Ends X (cmd_breaks X)
  unfolding cmd_breaks
  cmd_breaks-Ends = search ends_rules depth 7

  toggle-Ends : (disable : Bool) (id : ℤ) (bp : Option Breakpoint) → Ends X (toggle X disable id bp)
  unfolding toggle
  toggle-Ends disable id none = search ends_rules
  toggle-Ends disable id (some bp) = search ends_rules

  pub cmd_break_toggle-Ends :
      (disable : Bool) (args : List Text) → Ends X (cmd_break_toggle X disable args)
  unfolding cmd_break_toggle
  cmd_break_toggle-Ends disable [] = search ends_rules
  cmd_break_toggle-Ends disable (arg ∷ []) = search (ends_rules, toggle-Ends) depth 8
  cmd_break_toggle-Ends disable (a ∷ b ∷ args) = search ends_rules

  set_watch-Ends : (flags : Flags) (words : List Text) → Ends X (set_watch X flags words)
  unfolding set_watch
  set_watch-Ends flags [] = search ends_rules
  set_watch-Ends flags (name ∷ []) = search ends_rules depth 8
  set_watch-Ends flags (a ∷ b ∷ words) = search ends_rules

  pub cmd_watch-Ends : (args : List Text) → Ends X (cmd_watch X args)
  unfolding cmd_watch
  cmd_watch-Ends args = search (ends_rules, set_watch-Ends)

  pub cmd_pause-Ends : Ends X (cmd_pause X)
  unfolding cmd_pause
  cmd_pause-Ends = search (ends_rules, render_stop-Ends X)

  restart_by-Ends : (rebuild : Bool) (s : Session) → Ends X (restart_by X rebuild s)
  unfolding restart_by
  restart_by-Ends rebuild s = search (ends_rules, cmd_breaks-Ends) depth 9

  pub cmd_restart-Ends : (args : List Text) → Ends X (cmd_restart X args)
  unfolding cmd_restart
  cmd_restart-Ends args = search (ends_rules, restart_by-Ends)

  load_depth-Ends : (d : Text) → Ends X (load_depth X d)
  unfolding load_depth
  load_depth-Ends [] = search ends_rules
  load_depth-Ends (c ∷ d) = search ends_rules

  pub cmd_vars-Ends : (args : List Text) → Ends X (cmd_vars X args)
  unfolding cmd_vars
  cmd_vars-Ends args = search (ends_rules, load_depth-Ends, current_vars-Ends X) depth 8

  eval_all-Ends : (es : List Text) → Ends X (eval_all X es)
  unfolding eval_all
  eval_all-Ends [] = search ends_rules
  eval_all-Ends (e ∷ es) = Ends-bind _ _ (search ends_rules) λ s.
      Ends-bind _ _ (search ends_rules) λ v. Ends-bind _ _ (eval_all-Ends es) (search ends_rules)

  pub cmd_eval-Ends : (args : List Text) → Ends X (cmd_eval X args)
  unfolding cmd_eval
  cmd_eval-Ends [] = search ends_rules
  cmd_eval-Ends (a ∷ args) = search (ends_rules, eval_all-Ends) depth 7

  show_state-Ends : (o : Option DebuggerState) → Ends X (show_state X o)
  unfolding show_state
  show_state-Ends none = search ends_rules
  show_state-Ends (some state) =
      search (ends_rules, render_stop-Ends X, current_vars-Ends X) depth 12

  pub cmd_state-Ends : Ends X (cmd_state X)
  unfolding cmd_state
  cmd_state-Ends = search (ends_rules, show_state-Ends)

  add_expr-Ends : (e : Text) → Ends X (add_expr X e)
  add_expr-Ends [] = search ends_rules
  add_expr-Ends (c ∷ e) = search ends_rules

  remove_expr-Ends : (e : Text) (o : Option (List Text)) → Ends X (remove_expr X X.printable e o)
  remove_expr-Ends e none = search ends_rules
  remove_expr-Ends e (some rest) = search ends_rules

  pub cmd_watch_expr-Ends : (args : List Text) → Ends X (cmd_watch_expr X args)
  unfolding cmd_watch_expr
  cmd_watch_expr-Ends [] = search ends_rules
  cmd_watch_expr-Ends (what ∷ words) = search (ends_rules, add_expr-Ends, remove_expr-Ends) depth 8

  bt_depth-Ends : (d : Text) → Ends X (bt_depth X d)
  bt_depth-Ends [] = search ends_rules
  bt_depth-Ends (c ∷ d) = search ends_rules

  pub cmd_bt-Ends : (args : List Text) → Ends X (cmd_bt X args)
  unfolding cmd_bt
  cmd_bt-Ends args = search (ends_rules, bt_depth-Ends) depth 8

  frame_at-Ends : (i : ℤ) (frames : List Location) → Ends X (frame_at X i frames)
  unfolding frame_at
  frame_at-Ends (negsuc n) frames = search ends_rules
  frame_at-Ends (pos n) frames = by_elem (get_elem? frames n)
    where
      by_elem :
          (o : Option Location)
          → Ends X {A = Location} (elim o [
            | none ↦ fail (text "frame " ++ (show_int (pos n) ++ text " out of range"))
            | some fr ↦ pure fr
          ])
      by_elem none = search ends_rules
      by_elem (some fr) = search ends_rules

  current_location-Ends : Ends X (current_location X)
  unfolding current_location
  current_location-Ends = search (ends_rules, frame_at-Ends)

  source_context-Ends : (file : Text) (line : ℤ) (n : ℕ) → Ends X (source_context X file line n)
  unfolding source_context
  source_context-Ends file line n = search ends_rules

  pub cmd_list-Ends : Ends X (cmd_list X)
  unfolding cmd_list
  cmd_list-Ends = search (ends_rules, current_location-Ends, source_context-Ends)

  pub cmd_goroutines-Ends : Ends X (cmd_goroutines X)
  unfolding cmd_goroutines
  cmd_goroutines-Ends = search ends_rules depth 8

  pub cmd_goroutine-Ends : (args : List Text) → Ends X (cmd_goroutine X args)
  unfolding cmd_goroutine
  cmd_goroutine-Ends [] = search ends_rules
  cmd_goroutine-Ends (arg ∷ []) = search (ends_rules, cmd_bt-Ends) depth 8
  cmd_goroutine-Ends (a ∷ b ∷ args) = search ends_rules

  numbered_frame-Ends : (r : Try ℤ) → Ends X (numbered_frame X r)
  numbered_frame-Ends (error e) = search ends_rules
  numbered_frame-Ends (value (negsuc n)) = search ends_rules
  numbered_frame-Ends (value (pos n)) = Ends-update _

  select_frame-Ends : (arg : Text) → Ends X (select_frame X arg)
  unfolding select_frame
  select_frame-Ends arg = search (ends_rules, numbered_frame-Ends) depth 7

  pub cmd_frame-Ends : (args : List Text) → Ends X (cmd_frame X args)
  unfolding cmd_frame
  cmd_frame-Ends [] = search ends_rules
  cmd_frame-Ends (arg ∷ []) =
      search (ends_rules, select_frame-Ends, current_location-Ends, source_context-Ends) depth 9
  cmd_frame-Ends (a ∷ b ∷ args) = search ends_rules

module _ (X : Outside) (fuel : ℕ) (resumes : (cmd : Command) → Ends X (resume X fuel cmd)) where
  step_by-Ends : (cmd : Option Command) → Ends X (step_by X fuel cmd)
  unfolding step_by
  step_by-Ends none = search ends_rules
  step_by-Ends (some cmd) = resumes cmd

  pub cmd_step-Ends : (args : List Text) → Ends X (cmd_step X fuel args)
  unfolding cmd_step
  cmd_step-Ends args = step_by-Ends (step_command (step_kind args))

  pub cmd_until-Ends : (args : List Text) → Ends X (cmd_until X fuel args)
  unfolding cmd_until
  cmd_until-Ends [] = search ends_rules
  cmd_until-Ends (loc ∷ []) = search (ends_rules, create_breakpoint-Ends X, resumes) depth 10
  cmd_until-Ends (a ∷ b ∷ args) = search ends_rules

  set_failed-Ends : (sym : Text) (r : Try (Unit {0})) → Ends X (set_failed X sym r)
  set_failed-Ends sym (value u) = search ends_rules
  set_failed-Ends sym (error e) = search ends_rules

  then_continue-Ends : (msg what : Text) → Ends X (then_continue X fuel msg what)
  unfolding then_continue
  then_continue-Ends msg what = search (ends_rules, resumes) depth 7

  assign_value-Ends : (what : Text) (o : Option (Text × Text)) → Ends X (assign_value X fuel what o)
  unfolding assign_value
  assign_value-Ends what none = search ends_rules
  assign_value-Ends what (some (before, after)) =
      search (ends_rules, set_failed-Ends, then_continue-Ends) depth 12

  pub cmd_set-Ends : (args : List Text) → Ends X (cmd_set X fuel args)
  unfolding cmd_set
  cmd_set-Ends args = search (ends_rules, assign_value-Ends)
