-- ===== src/Mcp/Tools/Launching.antt =====
-- The tools of `tools` that start a program and set its breakpoints, `launchProps` among them.
use golang_debugger_skill.Base.{List, [], ◌∷◌, ◌++◌, Text, text}
use golang_debugger_skill.Mcp.Json.{Json}
use golang_debugger_skill.Mcp.Schema.{Tool, forward, obj, str, num, boolp, arr}
use golang_debugger_skill.Mcp.Argv.{
  launch_argv, break_argv, alone, with_argument, toggle_argv, watch_argv, restart_argv,
}

abbrev pub launch_props : List (Text × Json)
launch_props =
    (text "pkg", str (text "package dir to build & debug (dlv debug), e.g. \".\" or \"./cmd/app\""))
    ∷ (text "test", str (text "package dir to debug its tests (dlv test)"))
    ∷ (
      text "bin_path",
      str (text "pre-built binary to debug (dlv exec); build with -gcflags=\"all=-N -l\""),
    )
    ∷ (
      text "breakpoints",
      arr (text "breakpoint locations, e.g. [\"main.go:12\", \"pkg/x.go:40\"]"),
    )
    ∷ (text "break_functions", arr (text "function names to break on, e.g. [\"main.total\"]"))
    ∷ (
      text "args",
      arr (text "program arguments (for --test: -run/-v are translated to -test.run/-test.v)"),
    )
    ∷ (text "build_flags", str (text "extra go build flags"))
    ∷ []

abbrev pub launch_tool : Tool
launch_tool = record {
  name = text "debug_launch";
  description =
      text
        "Build and run a Go program or test under the debugger, paused. Exactly one of pkg/test/bin_path. With breakpoints it runs to the first stop; unrecovered panics always stop. One session per project; a new launch replaces it.";
  input_schema =
      obj
        (launch_props
          ++ ((
            text "stop_entry",
            boolp (text "stay paused before main even when breakpoints are set"),
          )
              ∷ []))
        [];
  run = forward (launch_argv (text "launch"));
}

abbrev pub trace_tool : Tool
trace_tool = record {
  name = text "debug_trace";
  description =
      text
        "Run through every hit of a breakpoint capturing expressions, in one call — see a value evolve across a loop without stepping.";
  input_schema =
      obj
        (launch_props
          ++ ((
            text "capture",
            str (text "comma-separated expressions to record at each hit, e.g. \"i,sum\""),
          )
              ∷ (text "max_hits", num (text "stop after this many hits (default 30)"))
              ∷ []))
        (text "breakpoints" ∷ []);
  run = forward (launch_argv (text "trace"));
}

abbrev pub break_tool : Tool
break_tool = record {
  name = text "debug_break";
  description =
      text
        "Set a breakpoint: location \"file:line\" or a function name; optional condition, hit count, or log template (logpoint prints and continues).";
  input_schema =
      obj
        ((text "location", str (text "file:line, e.g. \"main.go:42\""))
          ∷ (
            text "function",
            str (text "function name, e.g. \"main.total\" (alternative to location)"),
          )
          ∷ (text "condition", str (text "Go boolean expression, e.g. \"i == 5\""))
          ∷ (text "hit_count", str (text "stop on Nth hit, e.g. \"3\" or \"% 2\""))
          ∷ (
            text "log",
            str (text "logpoint template, e.g. \"i={i} sum={sum}\" — prints and continues"),
          )
          ∷ [])
        [];
  run = forward break_argv;
}

abbrev pub breaks_tool : Tool
breaks_tool = record {
  name = text "debug_breaks";
  description = text "List breakpoints and watchpoints with ids and hit counts.";
  input_schema = obj [] [];
  run = forward (alone (text "breaks"));
}

abbrev pub break_remove_tool : Tool
break_remove_tool = record {
  name = text "debug_break_remove";
  description = text "Remove a breakpoint by id.";
  input_schema = obj ((text "id", num (text "breakpoint id")) ∷ []) (text "id" ∷ []);
  run = forward (with_argument (text "break-rm") (text "id"));
}

abbrev pub break_toggle_tool : Tool
break_toggle_tool = record {
  name = text "debug_break_toggle";
  description = text "Enable or disable a breakpoint by id.";
  input_schema =
      obj
        ((text "id", num (text "breakpoint id"))
          ∷ (text "enable", boolp (text "true to enable, false to disable"))
          ∷ [])
        (text "id" ∷ []);
  run = forward toggle_argv;
}

abbrev pub watch_tool : Tool
watch_tool = record {
  name = text "debug_watch";
  description =
      text
        "Set a watchpoint: stop the moment a variable is written (or read). Scope-bound to the current frame.";
  input_schema =
      obj
        ((text "variable", str (text "variable to watch"))
          ∷ (text "read", boolp (text "also stop on reads"))
          ∷ [])
        (text "variable" ∷ []);
  run = forward watch_argv;
}

abbrev pub restart_tool : Tool
restart_tool = record {
  name = text "debug_restart";
  description =
      text
        "Relaunch the target from the start, keeping breakpoints. rebuild=true recompiles first.";
  input_schema = obj ((text "rebuild", boolp (text "recompile before restarting")) ∷ []) [];
  run = forward restart_argv;
}
