-- ===== src/Tests/Fixtures.antt =====
-- An outside world that plays a script: each resume command takes the next reply from a list.
use golang_debugger_skill.Base.{true, false, none, some, List, [], ◌∷◌, text, pos, value, error}
use golang_debugger_skill.Dlv.Types.{
  Breakpoint, Location, Variable, variable, nil, Thread, DebuggerState, Command,
}
use golang_debugger_skill.Dlv.Client.{Reply, in_time, silent, Outside}
use golang_debugger_skill.Dlv.Proc.{fresh}
use golang_debugger_skill.Daemon.Args.Modes.{debug}
use golang_debugger_skill.Daemon.State.{Session, World}
use golang_debugger_skill.Daemon.Host.{Host}

abbrev pub pay_break : Breakpoint
pay_break = record {
  id = pos 1;
  name = [];
  file = text "pay.go";
  line = pos 7;
  function_name = text "main.pay";
  cond = [];
  hit_cond = [];
  watch_expr = [];
  total_hit_count = 1;
  disabled = false;
}

abbrev pub frames : List Location
frames =
    record { file = text "pay.go"; line = pos 7; function = some (text "main.pay") }
    ∷ record { file = text "main.go"; line = pos 3; function = some (text "main.main") }
    ∷ []

abbrev pub total : Variable
total =
    variable
      (record {
        name = text "total";
        type = text "int";
        kind = 2;
        value = text "42";
        len = pos 0;
        unreadable = [];
        addr = 0;
        only_addr = false;
      })
      nil

abbrev pub stopped_thread : Thread
stopped_thread = record {
  file = text "pay.go";
  line = pos 7;
  function = some (text "main.pay");
  goroutine_id = pos 1;
  breakpoint = some pay_break;
  return_values = [];
}

abbrev pub stopped : DebuggerState
stopped = record {
  current_thread = some stopped_thread;
  watch_out_of_scope = [];
  exited = false;
  exit_status = pos 0;
}

abbrev pub ended : DebuggerState
ended = record {
  current_thread = none;
  watch_out_of_scope = [];
  exited = true;
  exit_status = pos 0;
}

abbrev play : Command → List Reply → Reply × List Reply
play cmd [] = (silent, [])
play cmd (r ∷ script) = (r, script)

abbrev pub toy : Outside
toy = record {
  State = List Reply;
  resume_command = play;
  halt = λ o. (value stopped, o);
  state = λ o. (value (some stopped), o);
  create_breakpoint = λ cond hit loc o. (value pay_break, o);
  amend_breakpoint = λ bp o. (value tt, o);
  list_breakpoints = λ o. (value (pay_break ∷ []), o);
  clear_breakpoint = λ id o. (value tt, o);
  create_watchpoint = λ at e bits o. (value pay_break, o);
  stacktrace = λ g depth o. (value frames, o);
  list_goroutines = λ start n o. (value [], o);
  list_local_vars = λ at cfg o. (value (total ∷ []), o);
  list_function_args = λ at cfg o. (value [], o);
  eval = λ at e o. (value total, o);
  set = λ at symbol val o. (value tt, o);
  restart = λ rebuild o. (value tt, o);
  close = λ o. o;
  spawn = λ root mode target flags args env o. (value tt, o);
  arrived = λ o. (text "paid" ∷ [], o);
  timestamp = λ o. text "2024-05-01T10:00:00Z";
  opens_log = λ o. true;
  writes_log = λ o. true;
  read_file = λ file o. (error (text "no such file"), o);
  printable = λ c. true;
}

abbrev pub session : Session
session = record {
  mode = debug;
  target = text "./cmd";
  target_args = [];
  sel_g = pos 4;
  sel_frame = pos 1;
  watch_exprs = [];
  logpoints = [];
  last_locals = [];
  exited = false;
  proc = fresh;
}

-- A session whose target stops once and then ends.
abbrev pub world : World toy
world = record { session = session; outside = in_time (value stopped) ∷ in_time (value ended) ∷ [] }

abbrev pub host : Host toy
host = record { sess = some session; req_env = []; log_open = true; log = []; outside = [] }
