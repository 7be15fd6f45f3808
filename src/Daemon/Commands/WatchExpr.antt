-- ===== src/Daemon/Commands/WatchExpr.antt =====
-- `cmdWatchExpr`.
pub mod Laws
pub mod Keeps
use golang_debugger_skill.Base.{
  quote, ℕ, ◌==◌, Bool, true, false, not, ◌&&◌, Option, none, some, List, [], ◌∷◌, ◌++◌, Text, text,
  text_eq, is_empty, join, contains_any, cut, trim_space, trim_newlines, newline, length, ltb,
  if◌then◌else◌, ℤ, pos, atoi, pure, fail, attempt, returned, Try, value, error, ◌>>=◌, ◌>>◌,
}
use golang_debugger_skill.Dlv.Types.{
  Variable, info, with_name, LoadConfig, default_load, DebuggerState, continue,
}
use golang_debugger_skill.Dlv.Client.{Outside}
use golang_debugger_skill.Daemon.Args.Flags.{FlagSpec, first, parse_args}
use golang_debugger_skill.Daemon.Render.Inline.{inline_var}
use golang_debugger_skill.Daemon.Render.Tree.{render_vars}
use golang_debugger_skill.Daemon.State.{Session, Io, call, current, update, scope}
use golang_debugger_skill.Daemon.Session.Stop.{current_vars, render_stop}
use golang_debugger_skill.Daemon.Session.Resume.{resume}

-- `append(s[:i], s[i+1:]...)` at the first place where the expression stands.
unfoldable pub remove_first : Text → List Text → Option (List Text)
unfolding text_eq
remove_first expr [] = none
remove_first expr (e ∷ es) =
    if text_eq e expr
    then some es
    else elim (remove_first expr es) [ none ↦ none | some rest ↦ some (e ∷ rest) ]

watch_usage : Text
unfolding text
watch_usage = text "usage: gdbg watch-expr add|rm <expr> | watch-expr list"

abbrev listed : List Text → Text
listed [] = text "no watch expressions"
listed (e ∷ es) = text "  " ++ join (text "\n  ") (e ∷ es)

module _ (X : Outside) where
  abbrev pub add_expr : Text → Io X Text
  add_expr [] = fail (text "usage: gdbg watch-expr add <expr>")
  add_expr (c ∷ e) = do
    update X (λ s. record s { watch_exprs = s.watch_exprs ++ ((c ∷ e) ∷ []) })
    pure (text "watching " ++ ((c ∷ e) ++ text " (re-shown at every stop)"))

  abbrev pub remove_expr : (ℕ → Bool) → Text → Option (List Text) → Io X Text
  remove_expr printable expr none = fail (text "not watching " ++ quote printable expr)
  remove_expr printable expr (some rest) = do
    update X (λ s. record s { watch_exprs = rest })
    pure (text "removed " ++ expr)

  unfoldable pub cmd_watch_expr : List Text → Io X Text
  unfolding join remove_first watch_usage quote text text_eq
  cmd_watch_expr [] = fail watch_usage
  cmd_watch_expr (what ∷ words) = do
    s ← current X
    let expr = join (b' ' ∷ []) words
    if text_eq what (text "add")
        then add_expr expr
        else if text_eq what (text "rm")
        then remove_expr X.printable expr (remove_first expr s.watch_exprs)
        else if text_eq what (text "list")
        then pure (listed s.watch_exprs)
        else fail watch_usage
