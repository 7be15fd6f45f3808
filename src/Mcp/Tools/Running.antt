-- ===== src/Mcp/Tools/Running.antt =====
-- The tools of `tools` that run the program, inspect it and change it.
use golang_debugger_skill.Base.{[], ◌∷◌, text}
use golang_debugger_skill.Mcp.Json.{string}
use golang_debugger_skill.Mcp.Schema.{Tool, forward, obj, str, num, boolp, arr, choice}
use golang_debugger_skill.Mcp.Argv.{
  alone, with_argument, depth_argv, eval_argv, set_argv, watch_expr_argv,
}

abbrev pub continue_tool : Tool
continue_tool = record {
  name = text "debug_continue";
  description =
      text
        "Resume until the next breakpoint, watchpoint, panic, or exit. Interrupts and reports after 25s if still running.";
  input_schema = obj [] [];
  run = forward (alone (text "continue"));
}

abbrev pub step_tool : Tool
step_tool = record {
  name = text "debug_step";
  description =
      text
        "Step: over (next line), in (into calls), out (finish function, shows return values), insn (one instruction).";
  input_schema =
      obj
        ((
          text "kind",
          choice (text "over" ∷ text "in" ∷ text "out" ∷ text "insn" ∷ [])
              ((text "description", string (text "step kind")) ∷ []),
        )
          ∷ [])
        (text "kind" ∷ []);
  run = forward (with_argument (text "step") (text "kind"));
}

abbrev pub until_tool : Tool
until_tool = record {
  name = text "debug_until";
  description = text "Run to a specific line (temporary breakpoint).";
  input_schema = obj ((text "location", str (text "file:line")) ∷ []) (text "location" ∷ []);
  run = forward (with_argument (text "until") (text "location"));
}

abbrev pub pause_tool : Tool
pause_tool = record {
  name = text "debug_pause";
  description = text "Interrupt a running program and show where every goroutine is.";
  input_schema = obj [] [];
  run = forward (alone (text "pause"));
}

abbrev pub vars_tool : Tool
vars_tool = record {
  name = text "debug_vars";
  description = text "Show function arguments and locals of the selected frame as real Go values.";
  input_schema =
      obj ((text "depth", num (text "max recursion into nested values (default 2)")) ∷ []) [];
  run = forward (depth_argv (text "vars"));
}

abbrev pub eval_tool : Tool
eval_tool = record {
  name = text "debug_eval";
  description =
      text
        "Evaluate Go expressions in the selected frame: variable paths (cfg.Threads, items[0].Qty), comparisons, len/cap, etc.";
  input_schema =
      obj ((text "expressions", arr (text "expressions to evaluate")) ∷ [])
        (text "expressions" ∷ []);
  run = forward eval_argv;
}

abbrev pub set_tool : Tool
set_tool = record {
  name = text "debug_set";
  description =
      text
        "Change a variable in the running process (numeric, bool, pointer) to test a fix without recompiling.";
  input_schema =
      obj
        ((text "variable", str (text "variable path, e.g. cfg.Threads"))
          ∷ (text "value", str (text "new value"))
          ∷ (text "then_continue", boolp (text "resume right after setting"))
          ∷ [])
        (text "variable" ∷ text "value" ∷ []);
  run = forward set_argv;
}

abbrev pub watch_expr_tool : Tool
watch_expr_tool = record {
  name = text "debug_watch_expr";
  description = text "Manage expressions re-evaluated and shown at every stop.";
  input_schema =
      obj
        ((text "action", choice (text "add" ∷ text "rm" ∷ text "list" ∷ []) [])
          ∷ (text "expr", str (text "expression (for add/rm)"))
          ∷ [])
        (text "action" ∷ []);
  run = forward watch_expr_argv;
}
