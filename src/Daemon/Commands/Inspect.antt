-- ===== src/Daemon/Commands/Inspect.antt =====
-- `cmdVars`, `cmdEval`, `cmdSet` and `cmdState`.
pub mod Keeps
pub mod Restore
pub mod Changing
use golang_debugger_skill.Base.{
  quote, ℕ, ◌==◌, Bool, true, false, not, ◌&&◌, Option, none, some, List, [], ◌∷◌, ◌++◌, Text, text,
  text_eq, is_empty, join, contains_any, cut, trim_space, trim_newlines, newline, length, ltb,
  if◌then◌else◌, ℤ, pos, atoi, pure, fail, attempt, returned, Try, value, error, ◌>>=◌, ◌>>◌,
}
use golang_debugger_skill.Dlv.Types.{
  Variable, info, with_name, LoadConfig, default_load, DebuggerState, continue,
}
use golang_debugger_skill.Dlv.Client.{Outside}
use golang_debugger_skill.Daemon.Args.Flags.{FlagSpec, first, parse_args}
use golang_debugger_skill.Daemon.Render.Inline.{inline_var}
use golang_debugger_skill.Daemon.Render.Tree.{render_vars}
use golang_debugger_skill.Daemon.State.{Session, Io, call, current, update, scope}
use golang_debugger_skill.Daemon.Session.Stop.{current_vars, render_stop}
use golang_debugger_skill.Daemon.Session.Resume.{resume}

unfoldable pub depth_spec : FlagSpec
unfolding text
depth_spec = (text "depth", true) ∷ []

unfoldable pub then_spec : FlagSpec
unfolding text
then_spec = (text "then", true) ∷ []

abbrev vars_or_none : (ℕ → Bool) → List Variable → Text
vars_or_none printable [] = text "no variables in scope"
vars_or_none printable (v ∷ vs) = render_vars printable (v ∷ vs)

-- Is none of the arguments spelled with an operator? `-` is not looked for.
unfoldable pub all_identifiers : List Text → Bool
unfolding contains_any text
all_identifiers [] = true
all_identifiers (a ∷ args) =
    if contains_any a (text "(=<>+*/ ") then false else all_identifiers args

abbrev is_several : List Text → Bool
is_several (a ∷ b ∷ args) = true
is_several _ = false

-- Each argument on its own, or all of them as one expression.
unfoldable pub expressions : List Text → List Text
unfolding all_identifiers contains_any join text
expressions args =
    if is_several args && contains_any (join (b' ' ∷ []) args) (text "(=<>+-*/ ")
    then (if all_identifiers args then args else join (b' ' ∷ []) args ∷ [])
    else args

abbrev label_or : Text → Text → Text
label_or [] d = d
label_or (c ∷ s) d = c ∷ s

module _ (X : Outside) where
  unfoldable pub load_depth : Text → Io X LoadConfig
  unfolding atoi
  load_depth [] = pure default_load
  load_depth (c ∷ d) = do
    n ← returned (atoi X.printable (c ∷ d))
    pure (record default_load { max_variable_recurse = n })

  unfoldable pub cmd_vars : List Text → Io X Text
  unfolding parse_args depth_spec first load_depth current_vars render_vars text
  cmd_vars args = do
    p ← returned (parse_args args depth_spec)
    cfg ← load_depth (first p.flags (text "depth"))
    vars ← current_vars X cfg
    pure (vars_or_none X.printable vars)

  abbrev eval_text : Text → Try Variable → Text
  eval_text expr (error e) = expr ++ (text ": error: " ++ (e ++ (newline ∷ [])))
  eval_text expr (value v) =
      render_vars X.printable (with_name v (label_or (info v).name expr) ∷ []) ++ (newline ∷ [])

  unfoldable pub eval_all : List Text → Io X Text
  unfolding render_vars text
  eval_all [] = pure []
  eval_all (e ∷ es) = do
    s ← current X
    v ← attempt (call X (X.eval (scope s) e))
    more ← eval_all es
    pure (eval_text e v ++ more)

  unfoldable pub cmd_eval : List Text → Io X Text
  unfolding eval_all expressions trim_newlines text
  cmd_eval [] = fail (text "usage: gdbg eval <expr> [<expr>…]")
  cmd_eval (a ∷ args) = do all ← eval_all (expressions (a ∷ args)); pure (trim_newlines all)

  abbrev pub set_failed : Text → Try (Unit {0}) → Io X (Unit {0})
  set_failed sym (value u) = pure u
  set_failed sym (error e) = fail (
      text "set "
      ++ (sym ++ (text ": " ++ (e ++ text " (delve can set numeric, bool and pointer values)"))))

  abbrev shown_value : Text → Try Variable → Text
  shown_value val (value v) = inline_var X.printable v 100
  shown_value val (error e) = val

  module _ (fuel : ℕ) where
    unfoldable pub then_continue : Text → Text → Io X Text
    unfolding text text_eq resume
    then_continue msg what =
        if text_eq what (text "continue")
        then (do report ← resume X fuel continue; pure (msg ++ (newline ∷ report)))
        else pure msg

    unfoldable pub assign_value : Text → Option (Text × Text) → Io X Text
    unfolding trim_space then_continue inline_var text
    assign_value what none = fail (text "usage: gdbg set <var> = <value> [--then continue]")
    assign_value what (some (before, after)) = do
      let sym = trim_space before
      let val = trim_space after
      s ← current X
      r ← attempt (call X (X.set (scope s) sym val))
      set_failed sym r
      v ← attempt (call X (X.eval (scope s) sym))
      then_continue (sym ++ (text " = " ++ shown_value val v)) what

    unfoldable pub cmd_set : List Text → Io X Text
    unfolding parse_args then_spec first assign_value cut join text
    cmd_set args = do
      p ← returned (parse_args args then_spec)
      assign_value (first p.flags (text "then")) (cut b'=' (join (b' ' ∷ []) p.pos))

  abbrev vars_part : List Variable → Text
  vars_part [] = []
  vars_part (v ∷ vs) = render_vars X.printable (v ∷ vs) ++ (newline ∷ [])

  -- The locals shown last are put aside while the stop is rendered again.
  unfoldable pub show_state : Option DebuggerState → Io X Text
  unfolding render_stop current_vars render_vars trim_newlines text
  show_state none = fail (text "no state")
  show_state (some state) = do
    saved ← current X
    update X (λ s. record s { last_locals = [] })
    stop ← render_stop X state [] false
    update X (λ s. record s { last_locals = saved.last_locals })
    vars ← current_vars X default_load
    pure (trim_newlines (stop ++ (newline ∷ vars_part vars)))

  unfoldable pub cmd_state : Io X Text
  unfolding show_state
  cmd_state = do state ← call X X.state; show_state state
