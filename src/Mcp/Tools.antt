-- ===== src/Mcp/Tools.antt =====
-- `tools`, in its order, and the map `byName` of `Serve`.
pub mod Launching
pub mod Running
pub mod Viewing
pub mod Known
pub mod Declared
use golang_debugger_skill.Base.{List, [], ◌∷◌, Option, Text}
use golang_debugger_skill.Daemon.Args.Flags.{lookup, insert}
use golang_debugger_skill.Mcp.Schema.{Tool}
use golang_debugger_skill.Mcp.Tools.Launching.{
  launch_tool, trace_tool, break_tool, breaks_tool, break_remove_tool, break_toggle_tool,
  watch_tool, restart_tool,
}
use golang_debugger_skill.Mcp.Tools.Running.{
  continue_tool, step_tool, until_tool, pause_tool, vars_tool, eval_tool, set_tool, watch_expr_tool,
}
use golang_debugger_skill.Mcp.Tools.Viewing.{
  backtrace_tool, list_tool, state_tool, goroutines_tool, goroutine_tool, frame_tool, output_tool,
  stop_tool, where_tool, definition_tool, hover_tool, references_tool,
}

abbrev pub tools : List Tool
tools =
    launch_tool ∷ trace_tool ∷ break_tool ∷ breaks_tool ∷ break_remove_tool ∷ break_toggle_tool
    ∷ watch_tool ∷ continue_tool ∷ step_tool ∷ until_tool ∷ pause_tool ∷ restart_tool ∷ vars_tool
    ∷ eval_tool ∷ set_tool ∷ watch_expr_tool ∷ backtrace_tool ∷ list_tool ∷ state_tool
    ∷ goroutines_tool ∷ goroutine_tool ∷ frame_tool ∷ output_tool ∷ stop_tool ∷ where_tool
    ∷ definition_tool ∷ hover_tool ∷ references_tool ∷ []

-- `for _, t := range all { byName[t.Name] = t }`
abbrev by_name_from : List Tool → List (Text × Tool) → List (Text × Tool)
by_name_from [] by_name = by_name
by_name_from (t ∷ all) by_name = by_name_from all (insert t.name t by_name)

unfoldable pub tool_named : Text → Option Tool
unfolding insert lookup
tool_named name = lookup name (by_name_from tools [])
