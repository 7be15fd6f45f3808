-- ===== src/Daemon/Dispatch.antt =====
-- `dispatch`, `execute` and `cmdDo`. A `do` re-enters `dispatch`; each level has shorter scripts.
pub mod Words
pub mod Ends
pub mod Halts
pub mod ReadOnly
pub mod Exited
pub mod Logged
use golang_debugger_skill.Base.{
  ℕ, zero, suc, ◌==◌, Bool, true, false, Option, none, some, List, [], ◌∷◌, ◌++◌, Text, text,
  text_eq, join, split, map, String, fields, newline, quote, if◌then◌else◌, Try, value, error, pure,
  fail, exhausted, returned, attempt, ◌>>=◌, ◌>>◌,
}
use golang_debugger_skill.Dlv.Types.{continue}
use golang_debugger_skill.Dlv.Client.{Outside}
use golang_debugger_skill.Daemon.State.{Session, Io, all_output}
use golang_debugger_skill.Daemon.Session.Resume.{resume}
use golang_debugger_skill.Daemon.Commands.Breaks.{
  cmd_break, cmd_breaks, cmd_break_rm, cmd_break_toggle, cmd_watch,
}
use golang_debugger_skill.Daemon.Commands.Run.{cmd_step, cmd_until, cmd_pause, cmd_restart}
use golang_debugger_skill.Daemon.Commands.Inspect.{cmd_vars, cmd_eval, cmd_set, cmd_state}
use golang_debugger_skill.Daemon.Commands.WatchExpr.{cmd_watch_expr}
use golang_debugger_skill.Daemon.Commands.Select.{
  cmd_bt, cmd_list, cmd_goroutines, cmd_goroutine, cmd_frame,
}
use golang_debugger_skill.Daemon.Host.{
  Host, Act, in_session, the_session, stop_session, log_usage, now, usage_log, succeeded,
}
use golang_debugger_skill.Daemon.Launch.{cmd_launch}
use golang_debugger_skill.Daemon.Trace.{cmd_trace}
use golang_debugger_skill.Daemon.Usage.{usage_report}

-- The cases of the two switches.
pub data Name : Type 0 where
  launch trace do_ usage down : Name
  break breaks break_rm break_on break_off watch continue_ step until pause restart : Name
  vars eval set watch_expr bt list state goroutines goroutine frame output stop : Name
  unknown : Name

abbrev names : List (String × Name)
names =
    ("launch", launch)
    ∷ ("trace", trace)
    ∷ ("do", do_)
    ∷ ("usage", usage)
    ∷ ("down", down)
    ∷ ("break", break)
    ∷ ("breaks", breaks)
    ∷ ("break-rm", break_rm)
    ∷ ("break-on", break_on)
    ∷ ("break-off", break_off)
    ∷ ("watch", watch)
    ∷ ("continue", continue_)
    ∷ ("c", continue_)
    ∷ ("step", step)
    ∷ ("until", until)
    ∷ ("pause", pause)
    ∷ ("restart", restart)
    ∷ ("vars", vars)
    ∷ ("eval", eval)
    ∷ ("set", set)
    ∷ ("watch-expr", watch_expr)
    ∷ ("bt", bt)
    ∷ ("list", list)
    ∷ ("state", state)
    ∷ ("goroutines", goroutines)
    ∷ ("goroutine", goroutine)
    ∷ ("frame", frame)
    ∷ ("output", output)
    ∷ ("stop", stop)
    ∷ ("kill", stop)
    ∷ []

name_in : List (String × Name) → Text → Name
unfolding text text_eq
name_in [] cmd = unknown
name_in ((s, n) ∷ more) cmd = if text_eq cmd (text s) then n else name_in more cmd

unfoldable pub name_of : Text → Name
unfolding name_in
name_of cmd = name_in names cmd

unfoldable pub no_session : Text
unfolding text
no_session = text "no debug session; start one with: gdbg launch --pkg <dir> --break <file:line>"

abbrev do_line : List Text → Text
do_line words = text "$ " ++ join (b' ' ∷ []) words

-- The commands of a script, in words.
abbrev pub script_parts : List Text → List (List Text)
script_parts args = map fields (split b';' (join (b' ' ∷ []) args))

module _ (X : Outside) (fuel : ℕ) where
  unfoldable pub show_output : Io X Text
  unfolding all_output join
  show_output = do lines ← all_output X; pure (join (newline ∷ []) lines)

  -- The second switch, over a session's methods.
  unfoldable pub session_command : Name → (cmd : Text) → List Text → Io X Text
  unfolding cmd_break cmd_breaks cmd_break_rm cmd_break_toggle cmd_watch resume cmd_step cmd_until
      cmd_pause cmd_restart cmd_vars cmd_eval cmd_set cmd_watch_expr cmd_bt cmd_list cmd_state
      cmd_goroutines cmd_goroutine cmd_frame show_output quote text
  session_command break cmd args = cmd_break X args
  session_command breaks cmd args = cmd_breaks X
  session_command break_rm cmd args = cmd_break_rm X args
  session_command break_on cmd args = cmd_break_toggle X false args
  session_command break_off cmd args = cmd_break_toggle X true args
  session_command watch cmd args = cmd_watch X args
  session_command continue_ cmd args = resume X fuel continue
  session_command step cmd args = cmd_step X fuel args
  session_command until cmd args = cmd_until X fuel args
  session_command pause cmd args = cmd_pause X
  session_command restart cmd args = cmd_restart X args
  session_command vars cmd args = cmd_vars X args
  session_command eval cmd args = cmd_eval X args
  session_command set cmd args = cmd_set X fuel args
  session_command watch_expr cmd args = cmd_watch_expr X args
  session_command bt cmd args = cmd_bt X args
  session_command list cmd args = cmd_list X
  session_command state cmd args = cmd_state X
  session_command goroutines cmd args = cmd_goroutines X
  session_command goroutine cmd args = cmd_goroutine X args
  session_command frame cmd args = cmd_frame X args
  session_command output cmd args = show_output
  session_command _ cmd args = fail (
      text "unknown command "
      ++ (quote X.printable cmd ++ text "; run gdbg with no arguments for help"))

  unfoldable pub run_in : Option Session → Name → Text → List Text → Act X Text
  unfolding no_session in_session session_command stop_session text
  run_in none name cmd args = fail no_session
  run_in (some s) stop cmd args = do
    stop_session X
    pure (text "session ended (daemon still up; gdbg down stops it)")
  run_in (some s) name cmd args = in_session X (session_command name cmd args)

  unfoldable pub after_part : Act X (List Text) → List Text → Try Text → Act X (List Text)
  unfolding join text
  after_part rest words (error e) = pure ((do_line words ++ (text "\nerror: " ++ e)) ∷ [])
  after_part rest words (value res) = do
    more ← rest
    pure ((do_line words ++ (newline ∷ res)) ∷ more)

  -- The loop of `cmdDo` over the parts; the first error is the last line.
  unfoldable pub do_parts : (List Text → Act X Text) → List (List Text) → Act X (List Text)
  unfolding after_part
  do_parts call [] = pure []
  do_parts call ([] ∷ parts) = do_parts call parts
  do_parts call ((w ∷ ws) ∷ parts) =
      attempt (call (w ∷ ws)) >>= after_part (do_parts call parts) (w ∷ ws)

  unfoldable pub cmd_do : (List Text → Act X Text) → List Text → Act X Text
  unfolding do_parts join split fields
  cmd_do call args = do
    out ← do_parts call (script_parts args)
    pure (join (newline ∷ newline ∷ []) out)

  -- The first switch. `call` is `dispatch`, for the commands of a `do`.
  unfoldable pub execute :
      (List Text → Act X Text) → (root : Text) → Name → (cmd : Text) → List Text → Act X Text
  unfolding cmd_launch cmd_trace cmd_do usage_log usage_report the_session run_in
  execute call root launch cmd args = cmd_launch X fuel root args
  execute call root trace cmd args = cmd_trace X root args
  execute call root do_ cmd args = cmd_do call args
  execute call root usage cmd args = do recs ← usage_log X; pure (usage_report recs)
  execute call root down cmd args = pure []
  execute call root name cmd args = do s ← the_session X; run_in s name cmd args

  -- `depth` bounds the nesting of `do`; `Halts` shows how much is enough.
  unfoldable pub dispatch : (depth : ℕ) → (root : Text) → List Text → Act X Text
  unfolding execute log_usage now name_of text
  dispatch zero root argv = exhausted
  dispatch (suc depth) root [] = fail (text "empty command")
  dispatch (suc depth) root (cmd ∷ args) = do
    start ← now X
    r ← attempt (execute (dispatch depth root) root (name_of cmd) cmd args)
    log_usage X start cmd args (succeeded r)
    returned r
