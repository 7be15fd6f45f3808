-- ===== src/Mcp/Tools/Declared.antt =====
-- The schemas of the tools and what the tools read.
use golang_debugger_skill.Base.{◌≡◌, refl, some, List, [], ◌∷◌, All, ◌also◌, Text, text, text_eq}
use golang_debugger_skill.Mcp.Json.{Json, Members, object, no_members, member, value_at}
use golang_debugger_skill.Mcp.Tools.Launching.{launch_tool, trace_tool}
use golang_debugger_skill.Mcp.Schema.{Tool, Run, forward, find_symbol, nav_run, obj, nav_schema}
use golang_debugger_skill.Mcp.Argv.{
  launch_argv, break_argv, alone, with_argument, toggle_argv, watch_argv, restart_argv, depth_argv,
  eval_argv, set_argv, watch_expr_argv,
}
use golang_debugger_skill.Mcp.Tools.{tools, tool_named}
use golang_debugger_skill.Mcp.Tools.Known.{Commands, tools-known, tools-named}

abbrev keys : Members → List Text
keys no_members = []
keys (member k v a) = k ∷ keys a

abbrev keys_of : Json → List Text
keys_of (object a) = keys a
keys_of _ = []

-- The names under a schema's `properties`.
abbrev pub properties : Json → List Text
properties (object a) = keys_of (value_at (text "properties") a)
properties _ = []

-- The two objects give these names the same values.
abbrev pub Agree : List Text → Members → Members → Type 0
Agree names a b = All (λ k. value_at k a ≡ value_at k b) names

abbrev pub ReadsOnly : List Text → Run → Type 0
ReadsOnly names (forward build) = (a b : Members) → Agree names a b → build a ≡ build b
ReadsOnly names find_symbol = Unit {0}
ReadsOnly names (nav_run verb) = Unit {0}

launch-ReadsOnly :
    (a b : Members)
    → Agree (properties launch_tool.input_schema) a b
    → launch_argv (text "launch") a ≡ launch_argv (text "launch") b
unfolding obj value_at text text_eq launch_argv
launch-ReadsOnly a b (pkg, (test, (bin, (breaks, (fns, (args, (build, (stop, u)))))))) = cc

trace-ReadsOnly :
    (a b : Members)
    → Agree (properties trace_tool.input_schema) a b
    → launch_argv (text "trace") a ≡ launch_argv (text "trace") b
unfolding obj value_at text text_eq launch_argv
trace-ReadsOnly a b (pkg, (test, (bin, (breaks, (fns, (args, (build, (capture, (max, u))))))))) = cc

-- What a tool forwards to the daemon depends only on the arguments that its schema declares.
tools-ReadsOnly : All (λ t. ReadsOnly (properties t.input_schema) t.run) tools
unfolding break_argv alone with_argument toggle_argv watch_argv restart_argv depth_argv eval_argv
    set_argv watch_expr_argv obj nav_schema value_at text text_eq
tools-ReadsOnly =
    launch-ReadsOnly
    also trace-ReadsOnly
    also (λ a b (e1, (e2, (e3, (e4, (e5, u))))). cc)
    also (λ a b u. refl)
    also (λ a b (e1, u). cc)
    also (λ a b (e1, (e2, u)). cc)
    also (λ a b (e1, (e2, u)). cc)
    also (λ a b u. refl)
    also (λ a b (e1, u). cc)
    also (λ a b (e1, u). cc)
    also (λ a b u. refl)
    also (λ a b (e1, u). cc)
    also (λ a b (e1, u). cc)
    also (λ a b (e1, u). cc)
    also (λ a b (e1, (e2, (e3, u))). cc)
    also (λ a b (e1, (e2, u)). cc)
    also (λ a b (e1, u). cc)
    also (λ a b u. refl)
    also (λ a b u. refl)
    also (λ a b u. refl)
    also (λ a b (e1, u). cc)
    also (λ a b (e1, u). cc)
    also (λ a b u. refl)
    also (λ a b u. refl)
    also tt
    also tt
    also tt
    also tt
    also tt

All-both : (P Q : Tool → Type 0) (ts : List Tool) → All P ts → All Q ts → All (λ t. P t × Q t) ts
All-both P Q [] p q = tt
All-both P Q (t ∷ ts) (p, ps) (q, qs) = ((p, q), All-both P Q ts ps qs)

abbrev IsFound : Tool → Type 0
IsFound t = tool_named t.name ≡ some t

abbrev IsKnown : Tool → Type 0
IsKnown t = Commands t.run

abbrev IsDeclared : Tool → Type 0
IsDeclared t = ReadsOnly (properties t.input_schema) t.run

-- Every tool is found under its own name; what it forwards to the daemon, from any arguments, begins
-- with a command that the daemon knows and depends only on the arguments that its schema declares.
pub tools_sound :
    All
      (λ t.
        (tool_named t.name ≡ some t)
        × (Commands t.run × ReadsOnly (properties t.input_schema) t.run))
      tools
tools_sound =
    All-both IsFound (λ t. IsKnown t × IsDeclared t) tools tools-named
      (All-both IsKnown IsDeclared tools tools-known tools-ReadsOnly)
