-- ===== src/Tests/Runs.antt =====
-- Commands at a scripted debugger.
use golang_debugger_skill.Base.{
  some, join, All, ℤ, index, negsuc, pos, ◌++◌, pure, attempt, ℕ, suc, ◌<◌, ◌≤◌, ◌≡◌, ◌≢◌, refl,
  Bool, true, none, List, [], ◌∷◌, Text, text, pos, ok, panicked, pending, value, arith, ◌>>=◌,
}
use golang_debugger_skill.Dlv.Types.{
  Breakpoint, Command, continue, DebuggerState, Variable, default_load,
}
use golang_debugger_skill.Dlv.Client.{Reply, Outside, silent}
use golang_debugger_skill.Daemon.State.{World, update, call, current}
use golang_debugger_skill.Daemon.Session.Resume.{resume, reply_result}
use golang_debugger_skill.Daemon.Session.Resume.View.{Reported, SameSetup, resume-Reported}
use mathlib.Core.List.{Perm}
use golang_debugger_skill.Daemon.Session.Logpoint.{hole, pieces}
use golang_debugger_skill.Daemon.Session.Logpoint.Pieces.{written, IsMatch, IsInner, pieces-written}
use golang_debugger_skill.Daemon.Session.Stop.{current_vars, delta_text, render_delta_locals}
use golang_debugger_skill.Daemon.Session.Stop.Changes.{
  IsDistinct, differing, render_delta_locals-differing,
}
use golang_debugger_skill.Daemon.Commands.Inspect.{cmd_state}
use golang_debugger_skill.Daemon.Commands.Inspect.Restore.{cmd_state-last_locals}
use golang_debugger_skill.Daemon.Commands.Breaks.{cmd_breaks, breaks_text}
use golang_debugger_skill.Daemon.Commands.Breaks.Order.{
  IsAscending, of_user, listing, cmd_breaks-Perm,
}
use golang_debugger_skill.Daemon.Session.Resume.Fuel.{Settles, resume_enough}
use golang_debugger_skill.Daemon.Commands.Select.{current_location, cmd_frame}
use golang_debugger_skill.Daemon.Commands.Select.Laws.{IsFrame, cmd_frame-current_location}
use golang_debugger_skill.Daemon.Commands.WatchExpr.{remove_first, cmd_watch_expr}
use golang_debugger_skill.Daemon.Commands.WatchExpr.Laws.{watch_expr-add-rm}
use golang_debugger_skill.Daemon.Dispatch.{continue_, eval, session_command, dispatch}
use golang_debugger_skill.Daemon.Dispatch.Exited.{IsSince, session_command-IsSince}
use golang_debugger_skill.Daemon.Dispatch.Logged.{LogsOutcome, can_log, dispatch-IsLogged}
use golang_debugger_skill.Daemon.Dispatch.Words.{size}
use golang_debugger_skill.Daemon.Dispatch.Halts.{dispatch-ends}
use golang_debugger_skill.Daemon.Host.{Host}
use golang_debugger_skill.Daemon.Dispatch.ReadOnly.{session_command-looks}
use golang_debugger_skill.Daemon.Trace.{trace_loop, trace_run}
use golang_debugger_skill.Daemon.Trace.Bounds.{EndsIn, hits_of, trace_loop-bounded}
use golang_debugger_skill.Tests.Fixtures.{pay_break, toy, world, host}

resume-Reported_example :
    ((report : Text)
      → (resume toy 3 continue world).0 ≡ ok report
      → Reported (resume toy 3 continue world).1.session)
    × SameSetup world.session (resume toy 3 continue world).1.session
resume-Reported_example = resume-Reported toy 3 continue world

-- The replies that are left bound the stops to come.
abbrev left : List Reply → ℕ
left [] = 0
left (r ∷ script) = suc (left script)

toy-stops :
    (cmd : Command) (o : List Reply) (state : DebuggerState) (halted : Bool)
    → reply_result (toy.resume_command cmd o).0 ≡ value (state, halted)
    → left (toy.resume_command cmd o).1 < left o
toy-stops cmd [] state halted h = cc
toy-stops cmd (r ∷ script) state halted h = omega arith

toy-Settles : Settles toy left
toy-Settles = record { stops = toy-stops; looks = λ at e o. omega arith }

resume_enough_example : (resume toy 3 continue world).0 ≢ pending
resume_enough_example = resume_enough toy-Settles 3 continue world (omega arith)

pieces-written_example :
    (written (pieces none (text "n={n}!")) ≡ text "n={n}!")
    × (All IsMatch (pieces none (text "n={n}!"))
        × ((p : Text) (c : ℕ) (e rest : Text)
            → IsInner (c ∷ e)
            → pieces none (p ++ (b'{' ∷ ((c ∷ e) ++ (b'}' ∷ rest))))
              ≡ pieces none p ++ (hole (c ∷ e) ∷ pieces none rest)))
pieces-written_example = pieces-written (text "n={n}!")

abbrev seen_once : World toy
seen_once = (render_delta_locals toy world).1

abbrev values_now : List Variable
values_now = elim (current_vars toy default_load world).0 [ ok vs ↦ vs | _ ↦ [] ]

values_given : (current_vars toy default_load world).0 ≡ ok values_now
unfolding current_vars ◌>>=◌ current call pure attempt
values_given = refl

values_again : (current_vars toy default_load seen_once).0 ≡ ok values_now
unfolding current_vars render_delta_locals ◌>>=◌ current call update pure attempt
values_again = refl

values-IsDistinct : IsDistinct values_now
unfolding current_vars ◌>>=◌ current call pure attempt
values-IsDistinct = (tt, tt)

render_delta_locals-differing_example :
    ((render_delta_locals toy seen_once).0
      ≡ ok (delta_text (differing (λ c. true) values_now values_now)))
    × (differing (λ c. true) values_now values_now ≡ [])
render_delta_locals-differing_example =
    render_delta_locals-differing toy world seen_once values_now values_now values-IsDistinct
      values_given refl values_again

abbrev some_breaks : List Breakpoint
some_breaks = record pay_break { id = pos 4 } ∷ pay_break ∷ record pay_break { id = negsuc 0 } ∷ []

-- The scripted debugger with these breakpoints
abbrev with_breaks : Outside
with_breaks = record toy { list_breakpoints = λ o. (value some_breaks, o) }

abbrev break_world : World with_breaks
break_world = record { session = world.session; outside = world.outside }

cmd_breaks-Perm_example :
    (shown : List Breakpoint) × IsAscending shown
    × Perm shown (of_user some_breaks)
    × ((cmd_breaks with_breaks break_world).0
        ≡ ok (breaks_text (listing (λ c. true) world.session.logpoints shown)))
cmd_breaks-Perm_example = cmd_breaks-Perm with_breaks break_world some_breaks world.outside refl

state_text : Text
unfolding cmd_state
state_text = elim (cmd_state toy world).0 [ ok t ↦ t | _ ↦ [] ]

state_answers : (cmd_state toy world).0 ≡ ok state_text
unfolding cmd_state state_text ◌>>=◌ call current update
state_answers = refl

cmd_state-last_locals_example :
    (cmd_state toy world).1.session.last_locals ≡ world.session.last_locals
cmd_state-last_locals_example = cmd_state-last_locals toy world state_text state_answers

-- The program has exited.
abbrev over : World toy
over = record world { session = record world.session { exited = true } }

session_command-IsSince_example :
    IsSince over.session (session_command toy 3 continue_ (text "continue") [] over).1.session
session_command-IsSince_example =
    session_command-IsSince toy 3 continue_ (text "continue") [] over refl

bt_can_log : can_log (dispatch toy 3 5 (text "/repo") (text "bt" ∷ []) host).1 ≡ true
unfolding dispatch text ◌>>=◌ call current attempt
bt_can_log = refl

dispatch-IsLogged_example :
    LogsOutcome toy (text "bt") [] (dispatch toy 3 5 (text "/repo") (text "bt" ∷ []) host)
dispatch-IsLogged_example = dispatch-IsLogged toy 3 4 (text "/repo") (text "bt") [] host bt_can_log

cmd_frame-current_location_example :
    IsFrame (cmd_frame toy (text "up" ∷ []) world).1.session
    × ((current_location toy (cmd_frame toy (text "up" ∷ []) world).1).0 ≢ panicked)
cmd_frame-current_location_example =
    cmd_frame-current_location toy (text "up" ∷ []) world refl (λ e. cc)

watch_expr-add-rm_example :
    (cmd_watch_expr toy (text "add" ∷ text "n" ∷ []) world ≡ (
      ok (text "watching " ++ (text "n" ++ text " (re-shown at every stop)")),
      record world {
        session = record world.session {
          watch_exprs = world.session.watch_exprs ++ (text "n" ∷ []);
        };
      },
    ))
    × ((cmd_watch_expr toy (text "add" ∷ text "n" ∷ []) >>= λ _.
            cmd_watch_expr toy (text "rm" ∷ text "n" ∷ []))
          world
        ≡ (ok (text "removed " ++ text "n"), world))
unfolding text
watch_expr-add-rm_example = watch_expr-add-rm toy b'n' [] world (unfold remove_first in refl)

session_command-looks_example :
    (session_command toy 3 eval (text "eval") (text "total" ∷ []) world).1.session ≡ world.session
session_command-looks_example =
    session_command-looks toy 3 eval (text "eval") (text "total" ∷ []) world refl

-- A target that gives no answer to a resume command
abbrev deaf : Outside
deaf = record toy { resume_command = λ cmd o. (silent, o) }

deaf-Settles : Settles deaf (λ o. 0)
deaf-Settles = record { stops = λ cmd o state halted h. cc; looks = λ at e o. omega arith }

abbrev deaf_host : Host deaf
deaf_host = record {
  sess = some world.session;
  req_env = [];
  log_open = true;
  log = [];
  outside = [];
}

abbrev script : List Text
script = text "do" ∷ text "bt;" ∷ text "continue" ∷ []

script-size : size script ≡ 15
unfolding join text
script-size = refl

dispatch-ends_example : (dispatch deaf 1 20 (text "/repo") script deaf_host).0 ≢ pending
dispatch-ends_example =
    dispatch-ends deaf-Settles 1 (λ o. omega arith) (text "/repo") 20 script deaf_host
      (omega (arith, script-size))

abbrev three : ℤ
three = pos 3

trace_loop-bounded_example :
    EndsIn
      (λ t. hits_of t ≤ index three)
      (trace_loop toy [] (pos 0) three (index three) 0 [] world).0
    × ((trace_run toy [] (pos 0) three world).0 ≢ pending)
trace_loop-bounded_example = trace_loop-bounded toy [] (pos 0) three world
