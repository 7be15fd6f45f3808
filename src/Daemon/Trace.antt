-- ===== src/Daemon/Trace.antt =====
-- `cmdTrace` and `traceBacktrace`.
pub mod Bounds
use golang_debugger_skill.Base.{
  ℕ, zero, suc, ◌-◌, ◌==◌, Bool, true, false, not, ◌||◌, ◌&&◌, Option, none, some, List, [], ◌∷◌,
  ◌++◌, Text, text, text_eq, is_empty, contains, has_prefix, join, trim_newlines, newline,
  if◌then◌else◌, ltb, ℤ, pos, negsuc, ltb_ℤ, index, show, show_int, pad_right, atoi, Try, value,
  error, pure, fail, exhausted, returned, attempt, ◌>>=◌, ◌>>◌,
}
use golang_debugger_skill.Dlv.Types.{
  Breakpoint, Location, Variable, DebuggerState, Thread, continue,
}
use golang_debugger_skill.Dlv.Client.{Outside}
use golang_debugger_skill.Daemon.Args.Flags.{parse_args, values, first}
use golang_debugger_skill.Daemon.Args.Modes.{
  launch_spec, launch_mode, normalize_test_args, split_list,
}
use golang_debugger_skill.Daemon.Render.Inline.{inline_var}
use golang_debugger_skill.Daemon.State.{Session, Io, call, current, update, reset_view, new_output}
use golang_debugger_skill.Daemon.Session.Source.{place, write_output}
use golang_debugger_skill.Daemon.Session.Logpoint.{current_scope}
use golang_debugger_skill.Daemon.Session.Report.{name_or}
use golang_debugger_skill.Daemon.Session.Stop.{report_never_hit}
use golang_debugger_skill.Daemon.Session.Resume.{run_command, has_exited}
use golang_debugger_skill.Daemon.Host.{Act, in_session, stop_session, start_session}
use golang_debugger_skill.Daemon.Launch.{set_break}

-- The callers above the first frame, up to the runtime.
unfoldable pub callers : List Location → List Text
unfolding place has_prefix text
callers [] = []
callers (fr ∷ frames) =
    let rest = callers frames in
    let name = name_or (text "?") fr.function in
    if has_prefix name (text "runtime.")
    then []
    else (name ++ (text " (" ++ (place fr.file fr.line ++ text ")"))) ∷ rest

abbrev tail : {A : Type 0} → List A → List A
tail [] = []
tail (x ∷ xs) = xs

abbrev caller_line : List Text → Text
caller_line [] = []
caller_line (p ∷ ps) = text "      ↳ " ++ (join (text " ← ") (p ∷ ps) ++ (newline ∷ []))

abbrev backtrace_of : Try (List Location) → Text
backtrace_of (error e) = []
backtrace_of (value frames) = caller_line (callers (tail frames))

unfoldable pub is_panic : Option Breakpoint → Bool
unfolding text text_eq
is_panic none = false
is_panic (some bp) =
    text_eq bp.name (text "unrecovered-panic") || text_eq bp.name (text "fatal-throw")

-- How the loop is left: early at a panic, or with the hits so far.
pub data Traced : Type 0 where
  raised : ℕ → Text → Traced
  finished : ℕ → Text → Traced

unfoldable pub hit_number : ℕ → Text
unfolding pad_right show text
hit_number hits = text " #" ++ (pad_right 3 (show hits) ++ text " ")

unfoldable pub panic_row : ℕ → Thread → Text
unfolding hit_number place text
panic_row hits th =
    hit_number hits
    ++ (text "PANIC at " ++ (place th.file th.line ++ text " — gdbg state to inspect\n"))

unfoldable pub hit_row : ℕ → Thread → Text
unfolding hit_number place text
hit_row hits th =
    hit_number hits ++ (name_or (text "?") th.function ++ (text "  " ++ place th.file th.line))

abbrev not_reached : Text
not_reached = text "(target did not reach the breakpoint before timeout; halted)\n"

module _ (X : Outside) where
  abbrev capture_text : Text → Try Variable → Text
  capture_text e (error m) = text "  " ++ (e ++ text "=<err>")
  capture_text e (value v) = text "  " ++ (e ++ (b'=' ∷ inline_var X.printable v 60))

  unfoldable pub captured : List Text → Io X Text
  unfolding inline_var text
  captured [] = pure []
  captured (e ∷ es) = do
    v ← attempt (call X (X.eval current_scope e))
    more ← captured es
    pure (capture_text e v ++ more)

  unfoldable pub trace_backtrace : ℤ → Io X Text
  unfolding callers join text
  trace_backtrace depth =
      if ltb_ℤ (pos 0) depth
      then (do
        frames ← attempt (call X (X.stacktrace (negsuc 0) depth))
        pure (backtrace_of frames))
      else pure []

  -- The rest of a round that did not end the loop.
  hit : (ℕ → Text → Io X Traced) → List Text → ℤ → ℕ → Text → Thread → Io X Traced
  unfolding captured trace_backtrace hit_row
  hit next captures depth hits rows th = do
    values ← captured captures
    callers_of ← trace_backtrace depth
    next (suc hits) (rows ++ (hit_row (suc hits) th ++ (values ++ (newline ∷ callers_of))))

  at_thread :
      (ℕ → Text → Io X Traced) → List Text → ℤ → ℕ → Text → Bool → Option Thread → Io X Traced
  unfolding is_panic panic_row hit text
  at_thread next captures depth hits rows true th = pure (finished hits (rows ++ not_reached))
  at_thread next captures depth hits rows false none = pure (finished hits (rows ++ not_reached))
  at_thread next captures depth hits rows false (some th) =
      if is_panic th.breakpoint
      then (do update X reset_view; pure (raised (suc hits) (rows ++ panic_row (suc hits) th)))
      else hit next captures depth hits rows th

  after_round :
      (ℕ → Text → Io X Traced) → List Text → ℤ → ℕ → Text → Try (DebuggerState × Bool) → Io X Traced
  unfolding at_thread has_exited
  after_round next captures depth hits rows (error e) =
      if has_exited e then pure (finished hits rows) else fail e
  after_round next captures depth hits rows (value (state, halted)) =
      if state.exited
      then pure (finished hits rows)
      else at_thread next captures depth hits rows halted state.current_thread

  -- `for hits < max`, on fuel: every round that goes on is a hit, so that `max` rounds are enough.
  unfoldable pub trace_loop : List Text → (depth max : ℤ) → (fuel hits : ℕ) → Text → Io X Traced
  unfolding run_command after_round
  trace_loop captures depth max zero hits rows =
      if ltb_ℤ (pos hits) max then exhausted else pure (finished hits rows)
  trace_loop captures depth max (suc fuel) hits rows =
      if ltb_ℤ (pos hits) max
      then (do
        r ← attempt (run_command X continue)
        after_round (trace_loop captures depth max fuel) captures depth hits rows r)
      else pure (finished hits rows)

  trace_text : ℕ → Text → Text → Text
  unfolding show text
  trace_text hits suffix body =
      text "trace: "
      ++ (show hits ++ (text " hit(s)" ++ (suffix ++ (newline ∷ trim_newlines body))))

  abbrev reached : ℕ → ℤ → Bool
  reached hits max = not (ltb_ℤ (pos hits) max)

  abbrev max_suffix : ℕ → ℤ → Text
  max_suffix hits max =
      if reached hits max
      then text " (stopped at --max " ++ (show_int max ++ text "; program halted mid-run)")
      else []

  unfoldable pub trace_report : ℤ → Traced → Io X Text
  unfolding trace_text report_never_hit new_output write_output show_int text
  trace_report max (raised hits rows) = pure (trace_text hits [] rows)
  trace_report max (finished hits rows) = do
    update X (λ s. record s { exited = not (reached hits max) })
    notes ← if hits == 0 then report_never_hit X else pure []
    out ← new_output X
    pure (trace_text hits (max_suffix hits max) (rows ++ (notes ++ write_output out)))

  abbrev pub number_flag : Text → ℤ → Text → Act X ℤ
  number_flag name default [] = pure default
  number_flag name default (c ∷ s) = elim (atoi X.printable (c ∷ s)) [
    | value n ↦ pure n
    | error e ↦ fail (name ++ (text ": " ++ e))
  ]

  unfoldable pub trace_breaks : List Text → Act X (Unit {0})
  unfolding set_break text
  trace_breaks [] = pure tt
  trace_breaks (loc ∷ locs) = do _ ← set_break X (text "breakpoint ") loc; trace_breaks locs

  unfoldable pub trace_places : List Text → Act X (Unit {0})
  unfolding text
  trace_places [] = fail (text "trace needs --break <file:line> or --break-fn <func>")
  trace_places (loc ∷ locs) = pure tt

  unfoldable pub trace_run : List Text → (depth max : ℤ) → Io X Text
  unfolding trace_loop trace_report
  trace_run captures depth max = do
    t ← trace_loop captures depth max (index max) 0 []
    trace_report max t

  unfoldable pub cmd_trace : Text → List Text → Act X Text
  unfolding parse_args launch_spec trace_places launch_mode split_list stop_session start_session
      normalize_test_args trace_breaks in_session trace_run atoi values first text
  cmd_trace root args = do
    p ← returned (parse_args args launch_spec)
    let locs = values p.flags (text "break") ++ values p.flags (text "break-fn")
    trace_places locs
    max ← number_flag (text "--max") (pos 30) (first p.flags (text "max"))
    depth ← number_flag (text "--bt") (pos 0) (first p.flags (text "bt"))
    m ← returned (launch_mode p.flags)
    stop_session X
    start_session X root m.0 m.1 (first p.flags (text "build-flags"))
        (normalize_test_args m.0 p.rest)
    trace_breaks locs
    in_session X (trace_run (split_list (first p.flags (text "capture"))) depth max)
