-- ===== src/Mcp/Argv.antt =====
-- The argument vectors that the tools build for the daemon: `launchArgv` and the functions given to
-- `forward`. None of them returns an error.
pub mod Options
pub mod Launch
pub mod Given
pub mod ReadsBack
use golang_debugger_skill.Base.{
  Bool, true, false, ◌&&◌, List, [], ◌∷◌, ◌++◌, Text, text, text_eq, is_empty, if◌then◌else◌,
}
use golang_debugger_skill.Daemon.Args.Flags.{dashes}
use golang_debugger_skill.Mcp.Json.{Members, string_arg, bool_arg, list_arg}

-- `if v := s(a, key); v != "" { argv = append(argv, flag, v) }`
unfoldable pub option_with : (flag v : Text) → List Text
option_with flag v = if is_empty v then [] else flag ∷ v ∷ []

-- `for _, l := range list(a, key) { argv = append(argv, flag, l) }`
unfoldable pub each_with : (flag : Text) → List Text → List Text
each_with flag [] = []
each_with flag (l ∷ ls) = flag ∷ l ∷ each_with flag ls

-- `if v := s(a, key); v != "" { argv = append(argv, v) }`
abbrev word_with : Text → List Text
word_with v = if is_empty v then [] else v ∷ []

-- `if b(a, key) { argv = append(argv, flag) }`
abbrev pub switch_with : (flag : Text) → Bool → List Text
switch_with flag given = if given then flag ∷ [] else []

abbrev pub after_dashes : List Text → List Text
after_dashes [] = []
after_dashes (arg ∷ args) = dashes ∷ arg ∷ args

unfoldable pub trace_options : Members → List Text
unfolding option_with string_arg text
trace_options a =
    option_with (text "--capture") (string_arg a (text "capture"))
    ++ option_with (text "--max") (string_arg a (text "max_hits"))

unfoldable pub launch_argv : (cmd : Text) → Members → List Text
unfolding option_with each_with trace_options string_arg bool_arg list_arg dashes text_eq text
launch_argv cmd a =
    cmd ∷ option_with (text "--pkg") (string_arg a (text "pkg"))
    ++ option_with (text "--test") (string_arg a (text "test"))
    ++ option_with (text "--bin-path") (string_arg a (text "bin_path"))
    ++ each_with (text "--break") (list_arg a (text "breakpoints"))
    ++ each_with (text "--break-fn") (list_arg a (text "break_functions"))
    ++ option_with (text "--build-flags") (string_arg a (text "build_flags"))
    ++ (if text_eq cmd (text "trace") then trace_options a else [])
    ++ switch_with (text "--stop-entry")
        (text_eq cmd (text "launch") && bool_arg a (text "stop_entry"))
    ++ after_dashes (list_arg a (text "args"))

unfoldable pub break_argv : Members → List Text
unfolding option_with string_arg text
break_argv a =
    text "break" ∷ word_with (string_arg a (text "location"))
    ++ option_with (text "--fn") (string_arg a (text "function"))
    ++ option_with (text "--if") (string_arg a (text "condition"))
    ++ option_with (text "--hit") (string_arg a (text "hit_count"))
    ++ option_with (text "--log") (string_arg a (text "log"))

-- A command and nothing else
unfoldable pub alone : (cmd : Text) → Members → List Text
alone cmd a = cmd ∷ []

-- A command and one argument, which is written when it is empty too
unfoldable pub with_argument : (cmd key : Text) → Members → List Text
unfolding string_arg
with_argument cmd key a = cmd ∷ string_arg a key ∷ []

unfoldable pub toggle_argv : Members → List Text
unfolding string_arg bool_arg text
toggle_argv a =
    (if bool_arg a (text "enable") then text "break-on" else text "break-off")
    ∷ string_arg a (text "id")
    ∷ []

unfoldable pub watch_argv : Members → List Text
unfolding string_arg bool_arg text
watch_argv a =
    text "watch"
    ∷ string_arg a (text "variable")
    ∷ switch_with (text "--read") (bool_arg a (text "read"))

unfoldable pub restart_argv : Members → List Text
unfolding bool_arg text
restart_argv a = text "restart" ∷ switch_with (text "--rebuild") (bool_arg a (text "rebuild"))

-- `vars` and `bt`
unfoldable pub depth_argv : (cmd : Text) → Members → List Text
unfolding option_with string_arg text
depth_argv cmd a = cmd ∷ option_with (text "--depth") (string_arg a (text "depth"))

unfoldable pub eval_argv : Members → List Text
unfolding list_arg text
eval_argv a = text "eval" ∷ list_arg a (text "expressions")

unfoldable pub set_argv : Members → List Text
unfolding string_arg bool_arg text
set_argv a =
    text "set"
    ∷ string_arg a (text "variable")
    ∷ text "="
    ∷ string_arg a (text "value")
    ∷ (if bool_arg a (text "then_continue") then text "--then" ∷ text "continue" ∷ [] else [])

unfoldable pub watch_expr_argv : Members → List Text
unfolding string_arg text
watch_expr_argv a =
    text "watch-expr" ∷ string_arg a (text "action") ∷ word_with (string_arg a (text "expr"))
