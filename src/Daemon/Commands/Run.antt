-- ===== src/Daemon/Commands/Run.antt =====
-- `cmdStep`, `cmdUntil`, `cmdPause` and `cmdRestart`.
pub mod Keeps
use golang_debugger_skill.Base.{
  ℕ, Bool, true, false, ◌&&◌, Option, none, some, List, [], ◌∷◌, ◌++◌, Text, text, text_eq,
  if◌then◌else◌, pure, fail, attempt, returned, Try, value, error, ◌>>=◌, ◌>>◌,
}
use golang_debugger_skill.Dlv.Types.{Command, continue, next, step, step_out, step_instruction}
use golang_debugger_skill.Dlv.Client.{Outside}
use golang_debugger_skill.Daemon.Args.Flags.{FlagSpec, has, parse_args}
use golang_debugger_skill.Daemon.Args.Modes.{Mode, exec}
use golang_debugger_skill.Daemon.State.{Session, Io, call, current, update, reset_view}
use golang_debugger_skill.Daemon.Session.Stop.{render_stop}
use golang_debugger_skill.Daemon.Session.Resume.{resume}
use golang_debugger_skill.Daemon.Commands.Breaks.{create_breakpoint, cmd_breaks}

-- The table of step kinds.
unfoldable pub step_command : Text → Option Command
unfolding text text_eq
step_command kind =
    if text_eq kind (text "over")
    then some next
    else if text_eq kind (text "in")
    then some step
    else if text_eq kind (text "into")
    then some step
    else if text_eq kind (text "out")
    then some step_out
    else if text_eq kind (text "insn")
    then some step_instruction
    else none

abbrev pub step_kind : List Text → Text
step_kind [] = text "over"
step_kind (kind ∷ more) = kind

unfoldable pub restart_spec : FlagSpec
unfolding text
restart_spec = (text "rebuild", false) ∷ []

abbrev is_exec : Mode → Bool
is_exec exec = true
is_exec _ = false

abbrev text_or_none : Try Text → Text
text_or_none (value t) = t
text_or_none (error e) = []

module _ (X : Outside) (fuel : ℕ) where
  unfoldable pub step_by : Option Command → Io X Text
  unfolding resume text
  step_by none = fail (text "usage: gdbg step over|in|out|insn")
  step_by (some cmd) = resume X fuel cmd

  unfoldable pub cmd_step : List Text → Io X Text
  unfolding step_by step_command text
  cmd_step args = step_by (step_command (step_kind args))

  -- The breakpoint is cleared whether the resume reports or fails.
  unfoldable pub cmd_until : List Text → Io X Text
  unfolding create_breakpoint resume text
  cmd_until (loc ∷ []) = do
    bp ← create_breakpoint X loc [] [] []
    report ← attempt (resume X fuel continue)
    _ ← attempt (call X (X.clear_breakpoint bp.id))
    returned report
  cmd_until args = fail (text "usage: gdbg until <file:line>")

module _ (X : Outside) where
  unfoldable pub cmd_pause : Io X Text
  unfolding render_stop
  cmd_pause = do state ← call X X.halt; update X reset_view; render_stop X state [] false

  -- `s.exited = false`, the view and the locals shown last
  abbrev pub restarted : Session → Session
  restarted s = record (reset_view s) { exited = false; last_locals = [] }

  unfoldable pub restart_by : Bool → Session → Io X Text
  unfolding cmd_breaks text
  restart_by rebuild s =
      if is_exec s.mode && rebuild
      then fail (text "--rebuild only works for --pkg/--test sessions")
      else (do
        _ ← call X (X.restart rebuild)
        update X restarted
        bps ← attempt (cmd_breaks X)
        pure (
            text "restarted, paused before main. Breakpoints kept:\n"
            ++ (text_or_none bps ++ text "\nRun gdbg continue.")))

  unfoldable pub cmd_restart : List Text → Io X Text
  unfolding parse_args restart_spec has restart_by text
  cmd_restart args = do
    p ← returned (parse_args args restart_spec)
    s ← current X
    restart_by (has p.flags (text "rebuild")) s
