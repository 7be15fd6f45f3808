-- ===== src/Mcp/Tools/Known.antt =====
-- What holds of every tool of the list.
use golang_debugger_skill.Base.{
  ◌≡◌, refl, Bool, true, false, some, List, [], ◌∷◌, All, ◌also◌, Text, text, text_eq,
  if◌then◌else◌,
}
use golang_debugger_skill.Daemon.Dispatch.{Name, unknown, name_of}
use golang_debugger_skill.Mcp.Json.{Members, bool_arg}
use golang_debugger_skill.Mcp.Schema.{Run, forward, find_symbol, nav_run}
use golang_debugger_skill.Mcp.Argv.{
  launch_argv, break_argv, alone, with_argument, toggle_argv, watch_argv, restart_argv, depth_argv,
  eval_argv, set_argv, watch_expr_argv,
}
use golang_debugger_skill.Mcp.Tools.{tools, tool_named}

-- The first word is a command that the daemon has.
abbrev pub is_known : Name → Bool
is_known unknown = false
is_known _ = true

abbrev pub starts_known : List Text → Bool
starts_known [] = false
starts_known (cmd ∷ args) = is_known (name_of cmd)

abbrev pub Commands : Run → Type 0
Commands (forward build) = (a : Members) → starts_known (build a) ≡ true
Commands find_symbol = Unit {0}
Commands (nav_run verb) = Unit {0}

any_refl : {A : Type 0} {b : Bool} → A → b ≡ b
any_refl a = refl

toggle-known : (a : Members) → starts_known (toggle_argv a) ≡ true
unfolding toggle_argv name_of text text_eq
toggle-known a = by_enable (bool_arg a (text "enable"))
  where
    by_enable :
        (b : Bool) → starts_known ((if b then text "break-on" else text "break-off") ∷ []) ≡ true
    by_enable true = refl
    by_enable false = refl

-- What a tool forwards to the daemon, from any arguments, is never empty and begins with a command
-- that the daemon knows.
pub tools-known : All (λ t. Commands t.run) tools
unfolding launch_argv break_argv alone with_argument watch_argv restart_argv depth_argv eval_argv
    set_argv watch_expr_argv name_of text text_eq
tools-known =
    any_refl also any_refl also any_refl also any_refl also any_refl also toggle-known also any_refl
    also any_refl also any_refl also any_refl also any_refl also any_refl also any_refl
    also any_refl also any_refl also any_refl also any_refl also any_refl also any_refl
    also any_refl also any_refl also any_refl also any_refl also any_refl also tt also tt also tt
    also tt also tt

-- No two tools share a name, so each is found under its own.
pub tools-named : All (λ t. tool_named t.name ≡ some t) tools
unfolding tool_named text text_eq
tools-named =
    refl also refl also refl also refl also refl also refl also refl also refl also refl also refl
    also refl also refl also refl also refl also refl also refl also refl also refl also refl
    also refl also refl also refl also refl also refl also refl also refl also refl also refl
    also tt
