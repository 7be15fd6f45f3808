-- ===== src/Daemon/Launch.antt =====
-- `cmdLaunch`.
use golang_debugger_skill.Base.{
  ℕ, Bool, true, false, ◌||◌, List, [], ◌∷◌, ◌++◌, Text, text, join, newline, if◌then◌else◌, quote,
  Try, value, error, pure, fail, returned, attempt, ◌>>=◌, ◌>>◌,
}
use golang_debugger_skill.Dlv.Types.{Breakpoint, continue}
use golang_debugger_skill.Dlv.Client.{Outside}
use golang_debugger_skill.Daemon.Args.Flags.{parse_args, values, first, has}
use golang_debugger_skill.Daemon.Args.Modes.{launch_spec, launch_mode, normalize_test_args}
use golang_debugger_skill.Daemon.Session.Resume.{resume}
use golang_debugger_skill.Daemon.Commands.Breaks.{create_breakpoint, describe_break}
use golang_debugger_skill.Daemon.Host.{Act, in_session, stop_session, start_session}

unfoldable pub paused : Text
unfolding text
paused =
    text "launched, paused before main. Set breakpoints, then gdbg continue.\n"
    ++ text "(unrecovered panics and fatal errors always stop the program)"

-- What stands before a report: nothing, or the lines and a newline.
abbrev above : Text → Text
above [] = []
above (c ∷ s) = (c ∷ s) ++ (newline ∷ [])

abbrev none_set : List Text → Bool
none_set [] = true
none_set (m ∷ msgs) = false

module _ (X : Outside) where
  abbrev pub break_failed : Text → Text → Try Breakpoint → Act X Breakpoint
  break_failed what loc (value bp) = pure bp
  break_failed what loc (error e) = do stop_session X; fail (what ++ (loc ++ (text ": " ++ e)))

  -- A breakpoint that cannot be set ends the session.
  unfoldable pub set_break : (what loc : Text) → Act X Breakpoint
  unfolding in_session create_breakpoint stop_session text
  set_break what loc = do
    r ← attempt (in_session X (create_breakpoint X loc [] [] []))
    break_failed what loc r

  unfoldable pub set_breaks : Text → List Text → Act X (List Text)
  unfolding set_break describe_break
  set_breaks what [] = pure []
  set_breaks what (loc ∷ locs) = do
    bp ← set_break what loc
    msgs ← set_breaks what locs
    pure (describe_break bp ∷ msgs)

  unfoldable pub only_flags : List Text → Act X (Unit {0})
  unfolding quote text
  only_flags [] = pure tt
  only_flags (a ∷ pos) =
      fail
        (text "unexpected argument " ++ (quote X.printable a ++ text " (program args go after --)"))

  module _ (fuel : ℕ) where
    unfoldable pub go_on : Bool → List Text → Act X Text
    unfolding in_session resume join paused text
    go_on stay msgs =
        if none_set msgs || stay then pure (above (join (newline ∷ []) msgs) ++ paused) else (do
          report ← in_session X (resume X fuel continue)
          pure (above (join (newline ∷ []) msgs) ++ report))

    unfoldable pub cmd_launch : Text → List Text → Act X Text
    unfolding parse_args launch_spec only_flags launch_mode stop_session start_session
        normalize_test_args set_breaks go_on values first has text
    cmd_launch root args = do
      p ← returned (parse_args args launch_spec)
      only_flags p.pos
      m ← returned (launch_mode p.flags)
      stop_session X
      start_session X root m.0 m.1 (first p.flags (text "build-flags"))
          (normalize_test_args m.0 p.rest)
      at_places ← set_breaks (text "breakpoint ") (values p.flags (text "break"))
      at_functions ← set_breaks (text "breakpoint on ") (values p.flags (text "break-fn"))
      go_on (has p.flags (text "stop-entry")) (at_places ++ at_functions)
