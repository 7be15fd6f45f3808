-- ===== src/Daemon/Session/Stop.antt =====
-- `renderStop`, `renderPanic`, `renderDeltaLocals`, `renderWatchExprs`, `currentVars`,
-- `exitReport` and `reportNeverHit`: the parts of a report, in the order in which they are written.
pub mod Changes
use golang_debugger_skill.Base.{
  ℕ, ◌==◌, Bool, true, false, not, ◌&&◌, Option, none, some, List, [], ◌∷◌, ◌++◌, Text, text,
  text_eq, is_empty, has_prefix, trim_newlines, newline, length, leb, if◌then◌else◌, ℤ, pos, ltb_ℤ,
  inc64, show, show_int, quote, Try, value, error, pure, panic, attempt, ◌>>=◌, ◌>>◌,
}
use golang_debugger_skill.Dlv.Types.{
  Breakpoint, Location, Variable, info, LoadConfig, default_load, Thread, DebuggerState,
}
use golang_debugger_skill.Dlv.Client.{Outside}
use golang_debugger_skill.Daemon.Args.Flags.{lookup, insert}
use golang_debugger_skill.Daemon.Render.Inline.{inline_var}
use golang_debugger_skill.Daemon.State.{Io, call, current, update, scope, new_output}
use golang_debugger_skill.Daemon.Session.Source.{place, source_arrow, write_output}
use golang_debugger_skill.Daemon.Session.Report.{
  Reason, function_name, head_line, ignored, lines_of, name_or, never_lines, panicking, reason_of,
  return_lines, scope_notes, user_frame,
}

-- A local that is new, or whose value is another than at the previous stop.
pub record Change : Type 0 where
  pub name : Text
  pub now : Text
  pub was : Text

abbrev pub change_of : Text → Text → Option Text → List Change → List Change
change_of name val none rest = record { name = name; now = val; was = [] } ∷ rest
change_of name val (some old) rest =
    if text_eq old val then rest else record { name = name; now = val; was = old } ∷ rest

module _ (printable : ℕ → Bool) where
  -- the loop's `changes`, against `s.lastLocals`
  unfoldable pub changes : List (Text × Text) → List Variable → List Change
  unfolding inline_var lookup
  changes last [] = []
  changes last (v ∷ vs) =
      let rest = changes last vs in
      change_of (info v).name (inline_var printable v 90) (lookup (info v).name last) rest

  -- the loop's `next`
  unfoldable pub next_locals : List (Text × Text) → List Variable → List (Text × Text)
  unfolding inline_var insert
  next_locals next [] = next
  next_locals next (v ∷ vs) = next_locals (insert (info v).name (inline_var printable v 90) next) vs

unfoldable pub change_line : Change → Text
unfolding text
change_line c =
    if is_empty c.was
    then text "+ " ++ (c.name ++ (text " = " ++ (c.now ++ (newline ∷ []))))
    else text "~ "
      ++ (c.name ++ (text " = " ++ (c.now ++ (text " (was " ++ (c.was ++ text ")\n")))))

unfoldable pub change_lines : List Change → Text
unfolding change_line
change_lines [] = []
change_lines (c ∷ cs) = change_line c ++ change_lines cs

unfoldable pub delta_text : List Change → Text
unfolding change_lines text show
delta_text cs =
    if leb (length cs) 12
    then change_lines cs
    else b'(' ∷ (show (length cs) ++ text " locals in scope; run `gdbg vars`)\n")

module _ (X : Outside) where
  -- Errors of the two calls are dropped.
  unfoldable pub current_vars : LoadConfig → Io X (List Variable)
  current_vars cfg = do
    s ← current X
    args ← attempt (call X (X.list_function_args (scope s) cfg))
    locals ← attempt (call X (X.list_local_vars (scope s) cfg))
    pure (ignored args ++ ignored locals)

  unfoldable pub render_delta_locals : Io X Text
  unfolding current_vars changes next_locals delta_text
  render_delta_locals = do
    vars ← current_vars default_load
    s ← current X
    update X (λ t. record t { last_locals = next_locals X.printable [] vars })
    pure (delta_text (changes X.printable s.last_locals vars))

  abbrev pub watch_line : Text → Try Variable → Text
  watch_line e (value v) =
      text "watch " ++ (e ++ (text " = " ++ (inline_var X.printable v 100 ++ (newline ∷ []))))
  watch_line e (error m) = text "watch " ++ (e ++ (text " = <error: " ++ (m ++ text ">\n")))

  unfoldable pub watch_lines : List Text → Io X Text
  watch_lines [] = pure []
  watch_lines (e ∷ es) = do
    s ← current X
    v ← attempt (call X (X.eval (scope s) e))
    more ← watch_lines es
    pure (watch_line e v ++ more)

  unfoldable pub render_watch_exprs : Io X Text
  unfolding watch_lines inline_var text
  render_watch_exprs = do s ← current X; watch_lines s.watch_exprs

  abbrev pub panic_line : Try Variable → Text
  panic_line (value v) = text "panic: " ++ (inline_var X.printable v 200 ++ (newline ∷ []))
  panic_line (error e) = []

  unfoldable pub select_frame : Option (ℤ × Location) → Io X Text
  select_frame none = pure []
  select_frame (some (i, fr)) = do
    update X (λ s. record s { sel_frame = i })
    arrow ← source_arrow X fr.file fr.line
    pure (
        text "frame "
        ++ (show_int i
            ++ (text " selected: "
                ++ (function_name fr
                    ++ (text "  " ++ (place fr.file fr.line ++ (newline ∷ arrow)))))))

  unfoldable pub render_panic : Io X Text
  unfolding select_frame user_frame inline_var source_arrow place show_int text
  render_panic = do
    s ← current X
    v ← attempt (call X (X.eval (scope s) (text "runtime.curg._panic.arg")))
    frames ← attempt (call X (X.stacktrace s.sel_g (pos 30)))
    more ← select_frame (user_frame (pos 0) (ignored frames))
    pure (panic_line v ++ more)

  abbrev pub panic_part : Reason → Io X Text
  panic_part panicking = render_panic
  panic_part _ = pure []

  -- Without a current thread the loop over its return values is a nil dereference.
  unfoldable pub stop_body : Thread → DebuggerState → List Text → Reason → Io X Text
  stop_body th state log_lines reason = do
    arrow ← source_arrow X th.file th.line
    raised ← panic_part reason
    delta ← render_delta_locals
    watches ← render_watch_exprs
    out ← new_output X
    pure (
        trim_newlines (
          lines_of log_lines
          ++ (head_line reason (name_or (text "?") th.function) (place th.file th.line)
                th.goroutine_id
              ++ (arrow
                  ++ (raised
                      ++ (scope_notes state.watch_out_of_scope
                          ++ (return_lines X.printable th.return_values
                              ++ (delta ++ (watches ++ write_output out)))))))))

  unfoldable pub render_stop : DebuggerState → List Text → Bool → Io X Text
  unfolding stop_body render_panic render_delta_locals render_watch_exprs reason_of head_line
      scope_notes return_lines write_output source_arrow new_output trim_newlines
  render_stop state log_lines halted = elim state.current_thread [
    | none ↦ panic
    | some th ↦ stop_body th state log_lines (reason_of state halted)
  ]

  -- `reportNeverHit` writes nothing if the breakpoints cannot be listed.
  unfoldable pub report_never_hit : Io X Text
  unfolding never_lines
  report_never_hit = do
    bps ← attempt (call X X.list_breakpoints)
    pure (never_lines X.printable (ignored bps))

  unfoldable pub exit_report : List Text → Text → Io X Text
  unfolding report_never_hit new_output write_output trim_newlines text
  exit_report log_lines msg = do
    notes ← report_never_hit
    out ← new_output X
    pure (
        trim_newlines (
          lines_of log_lines
          ++ (text ">>> EXIT " ++ (msg ++ (newline ∷ (notes ++ write_output out))))))
