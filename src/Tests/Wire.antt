-- ===== src/Tests/Wire.antt =====
-- A toy machine for the programs that talk to the daemon: a clock, a daemon that runs or does not, and
-- what was sent to it last.
use golang_debugger_skill.Base.{
  ℕ, ◌+◌, Bool, true, false, none, some, List, [], ◌∷◌, Text, text, Try, value, error,
}
use golang_debugger_skill.Client.Root.{FilePath}
use golang_debugger_skill.Client.Link.{Link}
use golang_debugger_skill.Nav.Syntax.{Entry, dir, end}
use golang_debugger_skill.Nav.Where.{Navigator}
use golang_debugger_skill.Mcp.Json.{no_members}
use golang_debugger_skill.Mcp.Serve.{Line, blank, garbled, request}
use golang_debugger_skill.Cli.{Process}

pub record Machine : Type 0 where
  pub clock : ℕ
  pub daemon_runs : Bool
  pub last_sent : List Text

abbrev accepts : Bool → Try (Unit {0})
accepts true = value tt
accepts false = error (text "connection refused")

abbrev pub wire : Link
wire = record {
  State = Machine;
  dial = λ root m. (accepts m.daemon_runs, m);
  send_request = λ req m. (value tt, record m { last_sent = req.argv });
  read_response =
      λ m. (value (record { content = text "done"; is_error = false; shutdown = false }), m);
  environ = λ m. [];
  now = λ m. m.clock;
  sleep = λ n m. record m { clock = m.clock + n };
  executable = λ m. (value (text "/bin/gdbg"), m);
  make_dirs = λ root m. (value tt, m);
  remove_socket = λ root m. m;
  open_log = λ root m. (value tt, m);
  start_process = λ self args dir m. (value tt, record m { daemon_runs = true });
}

abbrev pub quiet : Machine
quiet = record { clock = 7; daemon_runs = false; last_sent = [] }

abbrev pub work : FilePath
work = text "work" ∷ []

abbrev pub no_files : Entry
no_files = dir (text "work") end

abbrev pub navigator_over : (S : Type 0) → Navigator S
navigator_over S = record {
  files = λ root m. no_files;
  look_path = λ name m. false;
  run_gopls = λ args root m. ((text "", none), m);
  printable = λ c. true;
}

abbrev pub ping : Line
ping =
    request (record {
      id = some (text "1");
      method = text "ping";
      tool_name = [];
      arguments = no_members;
    })

abbrev pub stop_call : Line
stop_call = request (record {
  id = some (text "2");
  method = text "tools/call";
  tool_name = text "debug_stop";
  arguments = no_members;
})

abbrev pub input_lines : List Line
input_lines = ping ∷ blank ∷ garbled ∷ stop_call ∷ []

abbrev pub shell_over : (S : Type 0) → Process S
shell_over S = record {
  exists = λ m path. false;
  working_dir = λ m. value work;
  here = work;
  input = λ m. input_lines;
  input_error = λ m. none;
  run_daemon = λ root m. ((none, text "gdbg daemon listening on gdbg.sock\n"), m);
  printable = λ c. true;
}

abbrev pub navigator : Navigator Machine
navigator = navigator_over Machine

abbrev pub shell : Process Machine
shell = shell_over Machine
