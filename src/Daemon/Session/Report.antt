-- ===== src/Daemon/Session/Report.antt =====
-- The texts of a stop and of an exit: the reason and the head line, notes and return values, the frame
-- that a panic is shown at, and the breakpoints that were never hit.
use golang_debugger_skill.Base.{
  ℕ, ◌==◌, Bool, true, false, not, ◌&&◌, Option, none, some, List, [], ◌∷◌, ◌++◌, Text, text,
  text_eq, is_empty, has_prefix, newline, if◌then◌else◌, ℤ, pos, ltb_ℤ, inc64, show_int, quote, Try,
  value, error,
}
use golang_debugger_skill.Dlv.Types.{Breakpoint, Location, Variable, DebuggerState}
use golang_debugger_skill.Daemon.Render.Inline.{inline_var}
use golang_debugger_skill.Daemon.Session.Source.{place}

abbrev pub lines_of : List Text → Text
lines_of [] = []
lines_of (l ∷ ls) = l ++ (newline ∷ lines_of ls)

unfoldable pub stop_breakpoint : DebuggerState → Option Breakpoint
stop_breakpoint state = elim state.current_thread [ none ↦ none | some th ↦ th.breakpoint ]

-- The values of `reason`.
pub data Reason : Type 0 where
  interrupted step panicking fatal breakpoint : Reason
  watchpoint : Text → Reason

abbrev pub of_breakpoint : Option Breakpoint → Reason
of_breakpoint none = step
of_breakpoint (some bp) =
    if text_eq bp.name (text "unrecovered-panic")
    then panicking
    else if text_eq bp.name (text "fatal-throw")
    then fatal
    else if is_empty bp.watch_expr
    then breakpoint
    else watchpoint bp.watch_expr

unfoldable pub reason_of : DebuggerState → Bool → Reason
unfolding stop_breakpoint text text_eq
reason_of state true = interrupted
reason_of state false = of_breakpoint (stop_breakpoint state)

unfoldable pub reason_text : Reason → Text
unfolding text
reason_text interrupted = text "interrupted: still running after timeout, halted"
reason_text step = text "step"
reason_text panicking = text "panic"
reason_text fatal = text "fatal error"
reason_text breakpoint = text "breakpoint"
reason_text (watchpoint w) = text "watchpoint " ++ w

abbrev pub name_or : Text → Option Text → Text
name_or d none = d
name_or d (some n) = n

unfoldable pub head_line : Reason → (fn loc : Text) → ℤ → Text
unfolding reason_text text show_int
head_line reason fn loc gid =
    text ">>> STOP ["
    ++ (reason_text reason
        ++ (text "] "
            ++ (fn
                ++ (text "  " ++ (loc ++ (text "  (goroutine " ++ (show_int gid ++ text ")\n")))))))

unfoldable pub scope_notes : List Breakpoint → Text
unfolding text
scope_notes [] = []
scope_notes (w ∷ ws) =
    text "note: watchpoint on "
    ++ (w.watch_expr ++ (text " went out of scope and was removed\n" ++ scope_notes ws))

unfoldable pub return_lines : (ℕ → Bool) → List Variable → Text
unfolding inline_var text
return_lines printable [] = []
return_lines printable (v ∷ vs) =
    text "return " ++ (inline_var printable v 100 ++ (newline ∷ return_lines printable vs))

abbrev pub function_name : Location → Text
function_name fr = name_or [] fr.function

-- The first frame with a name outside the runtime, with its number.
unfoldable pub user_frame : ℤ → List Location → Option (ℤ × Location)
unfolding has_prefix text
user_frame i [] = none
user_frame i (fr ∷ frames) =
    let rest = user_frame (inc64 i) frames in
    if not (has_prefix (function_name fr) (text "runtime.")) && not (is_empty (function_name fr))
    then some (i, fr)
    else rest

abbrev pub ignored : {A : Type 0} → Try (List A) → List A
ignored (value found) = found
ignored (error e) = []

-- User breakpoints that never fired.
unfoldable pub is_unhit : Breakpoint → Bool
is_unhit bp = ltb_ℤ (pos 0) bp.id && ((bp.total_hit_count == 0) && is_empty bp.watch_expr)

abbrev pub in_function : Text → Text
in_function fn = if is_empty fn then [] else text " in " ++ fn

abbrev pub never_why : (ℕ → Bool) → Breakpoint → Text
never_why printable bp =
    if bp.disabled
    then text " (disabled)"
    else if is_empty bp.cond
    then []
    else text " (condition " ++ (quote printable bp.cond ++ text " never true)")

unfoldable pub never_line : (ℕ → Bool) → Breakpoint → Text
unfolding place text quote show_int
never_line printable bp =
    text "note: breakpoint "
    ++ (show_int bp.id
        ++ (text " at "
            ++ (place bp.file bp.line
                ++ (in_function bp.function_name
                    ++ (text " was NEVER HIT"
                        ++ (never_why printable bp
                            ++ text
                                " — the line was bound but not executed; verify the location before concluding this code path is unreached\n"))))))

unfoldable pub never_lines : (ℕ → Bool) → List Breakpoint → Text
unfolding never_line is_unhit
never_lines printable [] = []
never_lines printable (bp ∷ bps) =
    if is_unhit bp
    then never_line printable bp ++ never_lines printable bps
    else never_lines printable bps
