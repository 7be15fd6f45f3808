-- ===== src/Mcp/Tools/Viewing.antt =====
-- The tools of `tools` that look at the program and its source, and the one that ends it.
use golang_debugger_skill.Base.{[], ◌∷◌, text}
use golang_debugger_skill.Mcp.Schema.{
  Tool, forward, find_symbol, nav_run, obj, str, num, nav_schema,
}
use golang_debugger_skill.Mcp.Argv.{alone, with_argument, depth_argv}

abbrev pub backtrace_tool : Tool
backtrace_tool = record {
  name = text "debug_backtrace";
  description = text "Backtrace of the selected goroutine.";
  input_schema = obj ((text "depth", num (text "max frames (default 20)")) ∷ []) [];
  run = forward (depth_argv (text "bt"));
}

abbrev pub list_tool : Tool
list_tool = record {
  name = text "debug_list";
  description = text "Show source around the current line of the selected frame.";
  input_schema = obj [] [];
  run = forward (alone (text "list"));
}

abbrev pub state_tool : Tool
state_tool = record {
  name = text "debug_state";
  description = text "Current stop location plus all locals and watch expressions in one call.";
  input_schema = obj [] [];
  run = forward (alone (text "state"));
}

abbrev pub goroutines_tool : Tool
goroutines_tool = record {
  name = text "debug_goroutines";
  description = text "List goroutines with their current user location.";
  input_schema = obj [] [];
  run = forward (alone (text "goroutines"));
}

abbrev pub goroutine_tool : Tool
goroutine_tool = record {
  name = text "debug_goroutine";
  description = text "Select a goroutine; vars/eval/backtrace follow it.";
  input_schema = obj ((text "id", num (text "goroutine id")) ∷ []) (text "id" ∷ []);
  run = forward (with_argument (text "goroutine") (text "id"));
}

abbrev pub frame_tool : Tool
frame_tool = record {
  name = text "debug_frame";
  description = text "Select a stack frame by number, or move up/down; vars/eval follow it.";
  input_schema =
      obj ((text "selector", str (text "frame number, \"up\", or \"down\"")) ∷ [])
        (text "selector" ∷ []);
  run = forward (with_argument (text "frame") (text "selector"));
}

abbrev pub output_tool : Tool
output_tool = record {
  name = text "debug_output";
  description = text "Show the target program's captured stdout/stderr.";
  input_schema = obj [] [];
  run = forward (alone (text "output"));
}

abbrev pub stop_tool : Tool
stop_tool = record {
  name = text "debug_stop";
  description = text "End the debug session (kills the target; daemon stays for the next launch).";
  input_schema = obj [] [];
  run = forward (alone (text "stop"));
}

abbrev pub where_tool : Tool
where_tool = record {
  name = text "debug_where";
  description =
      text
        "Find where a symbol (function, method, type, const, var) is declared in the project — no session needed.";
  input_schema =
      obj ((text "name", str (text "symbol name, e.g. \"parseConfig\"")) ∷ []) (text "name" ∷ []);
  run = find_symbol;
}

abbrev pub definition_tool : Tool
definition_tool = record {
  name = text "debug_definition";
  description = text "Jump to definition of the symbol at file:line:col (gopls).";
  input_schema = nav_schema;
  run = nav_run (text "definition");
}

abbrev pub hover_tool : Tool
hover_tool = record {
  name = text "debug_hover";
  description = text "Type/doc info for the symbol at file:line:col (gopls).";
  input_schema = nav_schema;
  run = nav_run (text "hover");
}

abbrev pub references_tool : Tool
references_tool = record {
  name = text "debug_references";
  description = text "All references to the symbol at file:line:col (gopls).";
  input_schema = nav_schema;
  run = nav_run (text "references");
}
