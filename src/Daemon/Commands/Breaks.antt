-- ===== src/Daemon/Commands/Breaks.antt =====
-- `createBreakpoint`, `describeBreak`, `cmdBreak`, `cmdBreaks`, `cmdBreakRm`, `cmdBreakToggle` and
-- `cmdWatch`.
pub mod Order
pub mod Keeps
use golang_debugger_skill.Base.{
  ℕ, Bool, false, not, ◌&&◌, Option, none, some, List, [], ◌∷◌, ◌++◌, Text, text, is_empty,
  contains_any, trim_newlines, newline, if◌then◌else◌, ℤ, pos, ltb_ℤ, eq_ℤ, show, show_int, quote,
  atoi, pure, fail, returned, ◌>>=◌, ◌>>◌,
}
use golang_debugger_skill.Dlv.Types.{Breakpoint}
use golang_debugger_skill.Dlv.Client.{Outside}
use golang_debugger_skill.Daemon.Args.Flags.{FlagSpec, Flags, first, has, parse_args}
use golang_debugger_skill.Daemon.Args.Modes.{break_spec}
use golang_debugger_skill.Daemon.State.{
  Io, call, current, update, scope, find_log, delete_log, set_log,
}
use golang_debugger_skill.Daemon.Session.Source.{place}

unfoldable pub describe_break : Breakpoint → Text
unfolding place show_int text
describe_break bp =
    text "breakpoint "
    ++ (show_int bp.id
        ++ (text " set at "
            ++ (place bp.file bp.line
                ++ (if is_empty bp.function_name then [] else text "  in " ++ bp.function_name))))

-- A bare number means "the n-th hit".
unfoldable pub hit_condition : Text → Text
unfolding contains_any text
hit_condition hit =
    if not (is_empty hit) && not (contains_any hit (text "<>=%")) then text "== " ++ hit else hit

-- `sort.Slice` by id. Delve numbers its breakpoints, so that no two have one id, and then there is one
-- order that the library can leave.
unfoldable pub insert_break : Breakpoint → List Breakpoint → List Breakpoint
insert_break bp [] = bp ∷ []
insert_break bp (c ∷ cs) = if ltb_ℤ c.id bp.id then c ∷ insert_break bp cs else bp ∷ c ∷ cs

unfoldable pub sort_breaks : List Breakpoint → List Breakpoint
unfolding insert_break
sort_breaks [] = []
sort_breaks (bp ∷ bps) = insert_break bp (sort_breaks bps)

abbrev optional : (label value : Text) → Text
optional label value = if is_empty value then [] else label ++ value

abbrev log_part : (ℕ → Bool) → Option Text → Text
log_part printable none = []
log_part printable (some tmpl) = text "  log " ++ quote printable tmpl

abbrev state_part : Breakpoint → Text
state_part bp = if bp.disabled then text "  [disabled]" else []

hits_part : Breakpoint → Text
unfolding text show
hits_part bp =
    text "  (hits: " ++ (show bp.total_hit_count ++ (b')' ∷ (state_part bp ++ (newline ∷ []))))

unfoldable pub break_line : (ℕ → Bool) → List (ℤ × Text) → Breakpoint → Text
unfolding hits_part place find_log quote show_int text
break_line printable logpoints bp =
    text "  "
    ++ (show_int bp.id
        ++ (if is_empty bp.watch_expr
            then text ": "
              ++ (place bp.file bp.line
                  ++ (optional (text "  if ") bp.cond
                      ++ (optional (text "  hit ") bp.hit_cond
                          ++ (log_part printable (find_log bp.id logpoints) ++ hits_part bp))))
            else text ": watchpoint " ++ (bp.watch_expr ++ hits_part bp)))

-- Delve's own breakpoints have negative ids.
unfoldable pub break_lines : (ℕ → Bool) → List (ℤ × Text) → List Breakpoint → Text
unfolding break_line
break_lines printable logpoints [] = []
break_lines printable logpoints (bp ∷ bps) =
    if ltb_ℤ bp.id (pos 0)
    then break_lines printable logpoints bps
    else break_line printable logpoints bp ++ break_lines printable logpoints bps

abbrev pub breaks_text : Text → Text
breaks_text [] = text "no breakpoints (panic and fatal-error stops are always on)"
breaks_text (c ∷ s) = trim_newlines (c ∷ s)

unfoldable pub find_break : ℤ → List Breakpoint → Option Breakpoint
find_break id [] = none
find_break id (bp ∷ bps) = if eq_ℤ bp.id id then some bp else find_break id bps

unfoldable pub watch_spec : FlagSpec
unfolding text
watch_spec = (text "read", false) ∷ []

module _ (X : Outside) where
  abbrev pub remember : ℤ → Text → Io X (Unit {0})
  remember id [] = pure tt
  remember id (c ∷ log) = update X (λ s. record s { logpoints = set_log id (c ∷ log) s.logpoints })

  unfoldable pub create_breakpoint : (loc cond hit log : Text) → Io X Breakpoint
  unfolding set_log
  create_breakpoint loc cond hit log = do
    bp ← call X (X.create_breakpoint cond hit loc)
    remember bp.id log
    pure bp

  unfoldable pub break_usage : Text
  unfolding text
  break_usage =
      text
        "usage: gdbg break <file:line> [--if cond] [--hit N] [--log \"msg {expr}\"] | gdbg break --fn <func>"

  -- `--fn`, or else the only word
  abbrev pub location : Text → List Text → Io X Text
  location (c ∷ fn) words = pure (c ∷ fn)
  location [] (loc ∷ []) = pure loc
  location [] words = fail break_usage

  abbrev log_note : Option Text → Text
  log_note none = []
  log_note (some tmpl) = text "  (logpoint: prints and continues)"

  unfoldable pub cmd_break : List Text → Io X Text
  unfolding parse_args break_spec first break_usage hit_condition create_breakpoint describe_break
      find_log text
  cmd_break args = do
    p ← returned (parse_args args break_spec)
    loc ← location (first p.flags (text "fn")) p.pos
    bp ←
        create_breakpoint loc (first p.flags (text "if"))
          (hit_condition (first p.flags (text "hit"))) (first p.flags (text "log"))
    s ← current X
    pure (describe_break bp ++ log_note (find_log bp.id s.logpoints))

  unfoldable pub cmd_breaks : Io X Text
  unfolding sort_breaks break_lines trim_newlines text
  cmd_breaks = do
    bps ← call X X.list_breakpoints
    s ← current X
    pure (breaks_text (break_lines X.printable s.logpoints (sort_breaks bps)))

  unfoldable pub cmd_break_rm : List Text → Io X Text
  unfolding atoi delete_log show_int text
  cmd_break_rm (arg ∷ []) = do
    id ← returned (atoi X.printable arg)
    _ ← call X (X.clear_breakpoint id)
    update X (λ s. record s { logpoints = delete_log id s.logpoints })
    pure (text "breakpoint " ++ (show_int id ++ text " removed"))
  cmd_break_rm args = fail (text "usage: gdbg break-rm <id>")

  unfoldable pub toggle : Bool → ℤ → Option Breakpoint → Io X Text
  unfolding text show_int
  toggle disable id none = fail (text "no breakpoint " ++ show_int id)
  toggle disable id (some bp) = do
    _ ← call X (X.amend_breakpoint (record bp { disabled = disable }))
    pure (
        text "breakpoint "
        ++ (show_int id ++ (if disable then text " disabled" else text " enabled")))

  unfoldable pub cmd_break_toggle : Bool → List Text → Io X Text
  unfolding atoi toggle find_break text
  cmd_break_toggle disable (arg ∷ []) = do
    id ← returned (atoi X.printable arg)
    bps ← call X X.list_breakpoints
    toggle disable id (find_break id bps)
  cmd_break_toggle disable args = fail (text "usage: gdbg break-on|break-off <id>")

  -- `WatchWrite` is 2, and `WatchRead` adds 1.
  unfoldable pub set_watch : Flags → List Text → Io X Text
  unfolding has show_int text
  set_watch flags (name ∷ []) = do
    s ← current X
    bp ← call X (X.create_watchpoint (scope s) name (if has flags (text "read") then 3 else 2))
    pure (
        text "watchpoint "
        ++ (show_int bp.id
            ++ (text " set on " ++ (name ++ text " (stops when it changes; scope-bound)"))))
  set_watch flags words = fail (text "usage: gdbg watch <variable> [--read]")

  unfoldable pub cmd_watch : List Text → Io X Text
  unfolding parse_args watch_spec set_watch
  cmd_watch args = do p ← returned (parse_args args watch_spec); set_watch p.flags p.pos
