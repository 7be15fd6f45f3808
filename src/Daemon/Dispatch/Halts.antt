-- ===== src/Daemon/Dispatch/Halts.antt =====
-- Every command line comes to an end.
use golang_debugger_skill.Base.{
  ℕ, zero, suc, ◌<◌, ◌≤◌, ◌≢◌, true, false, Option, none, some, List, [], ◌∷◌, arith, Text, pending,
  Try, value, error, All, join, split, fields, fields_from,
}
use golang_debugger_skill.Dlv.Types.{Command, continue}
use golang_debugger_skill.Dlv.Client.{Outside}
use golang_debugger_skill.Daemon.State.{Session}
use golang_debugger_skill.Daemon.Logic.Total.{Ends, ends_rules}
use golang_debugger_skill.Daemon.Session.Resume.{resume}
use golang_debugger_skill.Daemon.Session.Resume.Fuel.{Settles, resume_enough}
use golang_debugger_skill.Daemon.Host.{Host, Act}
use golang_debugger_skill.Daemon.Commands.Ends.{
  cmd_break-Ends, cmd_break_rm-Ends, cmd_breaks-Ends, cmd_break_toggle-Ends, cmd_watch-Ends,
  cmd_pause-Ends, cmd_restart-Ends, cmd_vars-Ends, cmd_eval-Ends, cmd_state-Ends,
  cmd_watch_expr-Ends, cmd_bt-Ends, cmd_list-Ends, cmd_goroutines-Ends, cmd_goroutine-Ends,
  cmd_frame-Ends, cmd_step-Ends, cmd_until-Ends, cmd_set-Ends,
}
use golang_debugger_skill.Daemon.Dispatch.{
  Name, launch, trace, do_, usage, down, break, breaks, break_rm, break_on, break_off, watch,
  continue_, step, until, pause, restart, vars, eval, set, watch_expr, bt, list, state, goroutines,
  goroutine, frame, output, stop, show_output, session_command, run_in, after_part, do_parts,
  script_parts, cmd_do, execute, name_of, dispatch,
}
use golang_debugger_skill.Daemon.Dispatch.Words.{size, size-tail, size-script}
use golang_debugger_skill.Daemon.Dispatch.Ends.{
  Returns, Returns-bind, Returns-now, Returns-attempt, returns_rules, cmd_trace-Returns,
  cmd_launch-Returns,
}

-- What is run for a part of a script comes to an end.
abbrev PartReturns : {X : Outside} → (List Text → Act X Text) → List Text → Type 0
PartReturns call [] = Unit {0}
PartReturns call (w ∷ ws) = Returns (call (w ∷ ws))

module _ (X : Outside) (fuel : ℕ) (resumes : (cmd : Command) → Ends X (resume X fuel cmd)) where
  show_output-Ends : Ends X (show_output X fuel)
  unfolding show_output
  show_output-Ends = search ends_rules

  session_command-Ends :
      (name : Name) (cmd : Text) (args : List Text) → Ends X (session_command X fuel name cmd args)
  unfolding session_command
  session_command-Ends break cmd args = cmd_break-Ends X args
  session_command-Ends breaks cmd args = cmd_breaks-Ends X
  session_command-Ends break_rm cmd args = cmd_break_rm-Ends X args
  session_command-Ends break_on cmd args = cmd_break_toggle-Ends X false args
  session_command-Ends break_off cmd args = cmd_break_toggle-Ends X true args
  session_command-Ends watch cmd args = cmd_watch-Ends X args
  session_command-Ends continue_ cmd args = resumes continue
  session_command-Ends step cmd args = cmd_step-Ends X fuel resumes args
  session_command-Ends until cmd args = cmd_until-Ends X fuel resumes args
  session_command-Ends pause cmd args = cmd_pause-Ends X
  session_command-Ends restart cmd args = cmd_restart-Ends X args
  session_command-Ends vars cmd args = cmd_vars-Ends X args
  session_command-Ends eval cmd args = cmd_eval-Ends X args
  session_command-Ends set cmd args = cmd_set-Ends X fuel resumes args
  session_command-Ends watch_expr cmd args = cmd_watch_expr-Ends X args
  session_command-Ends bt cmd args = cmd_bt-Ends X args
  session_command-Ends list cmd args = cmd_list-Ends X
  session_command-Ends state cmd args = cmd_state-Ends X
  session_command-Ends goroutines cmd args = cmd_goroutines-Ends X
  session_command-Ends goroutine cmd args = cmd_goroutine-Ends X args
  session_command-Ends frame cmd args = cmd_frame-Ends X args
  session_command-Ends output cmd args = show_output-Ends
  session_command-Ends _ cmd args = search ends_rules

  run_in-Returns :
      (s : Option Session) (name : Name) (cmd : Text) (args : List Text)
      → Returns (run_in X fuel s name cmd args)
  unfolding run_in
  run_in-Returns none name cmd args = search returns_rules
  run_in-Returns (some s) stop cmd args = search returns_rules
  run_in-Returns (some s) _ cmd args = search (returns_rules, session_command-Ends)

  after_part-Returns :
      (rest : Act X (List Text)) (words : List Text) (r : Try Text)
      → Returns rest
      → Returns (after_part X fuel rest words r)
  unfolding after_part
  after_part-Returns rest words (error e) k = search returns_rules
  after_part-Returns rest words (value t) k = search returns_rules

  do_parts-Returns :
      (call : List Text → Act X Text) (parts : List (List Text))
      → All (PartReturns call) parts
      → Returns (do_parts X fuel call parts)
  unfolding do_parts
  do_parts-Returns call [] k = search returns_rules
  do_parts-Returns call ([] ∷ parts) (k, ks) = do_parts-Returns call parts ks
  do_parts-Returns call ((w ∷ ws) ∷ parts) (k, ks) = Returns-bind _ _ (search returns_rules) (λ r.
      after_part-Returns (do_parts X fuel call parts) (w ∷ ws) r (do_parts-Returns call parts ks))

  execute-Returns :
      (call : List Text → Act X Text) (root : Text) (name : Name) (cmd : Text) (args : List Text)
      → All (PartReturns call) (script_parts args)
      → Returns (execute X fuel call root name cmd args)
  unfolding execute cmd_do
  execute-Returns call root launch cmd args k = cmd_launch-Returns X fuel resumes root args
  execute-Returns call root trace cmd args k = cmd_trace-Returns X root args
  execute-Returns call root do_ cmd args k =
      Returns-bind _ _ (do_parts-Returns call (script_parts args) k) (search returns_rules)
  execute-Returns call root usage cmd args k = search returns_rules
  execute-Returns call root down cmd args k = search returns_rules
  execute-Returns call root _ cmd args k = search (returns_rules, run_in-Returns)

  module _ (root : Text) where
    parts-Returns :
        (n k : ℕ) (parts : List (List Text))
        → ((argv : List Text) → size argv < n → Returns (dispatch X fuel n root argv))
        → k < n
        → All (λ ws. size ws ≤ k) parts
        → All (PartReturns (dispatch X fuel n root)) parts
    parts-Returns n k [] ih lt h = tt
    parts-Returns n k ([] ∷ parts) ih lt (h, hs) = (tt, parts-Returns n k parts ih lt hs)
    parts-Returns n k ((w ∷ ws) ∷ parts) ih lt (h, hs) =
        (ih (w ∷ ws) (omega arith), parts-Returns n k parts ih lt hs)

    no_parts : (n : ℕ) → All (PartReturns (dispatch X fuel n root)) (script_parts [])
    unfolding join split fields fields_from
    no_parts n = (tt, tt)

    logged-Returns :
        (n : ℕ) (cmd : Text) (args : List Text)
        → Returns (execute X fuel (dispatch X fuel n root) root (name_of cmd) cmd args)
        → Returns (dispatch X fuel (suc n) root (cmd ∷ args))
    unfolding dispatch
    logged-Returns n cmd args run =
        Returns-bind _ _ Returns-now
          (λ start. Returns-bind _ _ (Returns-attempt _ run) (λ r. search returns_rules))

    dispatch-Returns :
        (depth : ℕ) (argv : List Text)
        → size argv < depth
        → Returns (dispatch X fuel depth root argv)
    dispatch-Returns zero argv lt = absurd (omega arith)
    dispatch-Returns (suc n) [] lt = unfold dispatch in search returns_rules
    dispatch-Returns (suc n) (cmd ∷ []) lt =
        logged-Returns n cmd []
          (execute-Returns (dispatch X fuel n root) root (name_of cmd) cmd [] (no_parts n))
    dispatch-Returns (suc n) (cmd ∷ a ∷ args) lt = logged-Returns n cmd (a ∷ args) (
        execute-Returns (dispatch X fuel n root) root (name_of cmd) cmd (a ∷ args) (
          parts-Returns n (size (a ∷ args)) (script_parts (a ∷ args)) (dispatch-Returns n)
            (omega (arith, size-tail cmd a args)) (size-script (a ∷ args))))

-- Where the number of stops to come is always below the fuel of a resume, every command line comes to an
-- end, with a result, an error or a panic, however its `do`s are nested: a depth above the length of the
-- command line is enough, and no loop runs out of fuel.
pub dispatch-ends :
    {X : Outside} {left : X.State → ℕ}
    → Settles X left
    → (fuel : ℕ) → ((o : X.State) → left o < fuel)
    → (root : Text) (depth : ℕ) (argv : List Text) (h : Host X) → size argv < depth
    → (dispatch X fuel depth root argv h).0 ≢ pending
dispatch-ends {X = X} settles fuel few root depth argv h lt =
    (dispatch-Returns X fuel
        (λ cmd. record { at = λ w. resume_enough settles fuel cmd w (few w.outside) }) root depth
        argv lt).at
      h
