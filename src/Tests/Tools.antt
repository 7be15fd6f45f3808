-- ===== src/Tests/Tools.antt =====
-- The tools, the program and the client at a toy machine.
use golang_debugger_skill.Base.{
  ok, Res, none, text_eq, ◌>>=◌, ◌≡◌, ◌≢◌, ◌∙◌, sym, pending, Text, refl, arith, Bool, true, false,
  [], ◌∷◌, map, text, Holds, IsReturn, Preserves, drop, value,
}
use golang_debugger_skill.Client.Root.{FilePath, project_root}
use golang_debugger_skill.Client.Root.Nearest.{IsNearest, project_root-IsNearest}
use golang_debugger_skill.Client.Send.{send}
use golang_debugger_skill.Client.Send.Retry.{IsClock, enough, send-ends}
use golang_debugger_skill.Client.Send.Running.{IsTransparent}
use golang_debugger_skill.Daemon.Args.Flags.{Parsed, parse_args}
use golang_debugger_skill.Daemon.Args.Modes.{launch_spec}
use golang_debugger_skill.Mcp.Json.{Members, string, array, no_members, member, no_items, item}
use golang_debugger_skill.Mcp.Argv.{launch_argv, alone}
use golang_debugger_skill.Mcp.Argv.ReadsBack.{IsMeant, parse_args-launch_argv}
use golang_debugger_skill.Mcp.Schema.{forward}
use golang_debugger_skill.Mcp.Serve.{serve_lines, run_tool}
use golang_debugger_skill.Mcp.Serve.Replies.{ids, serve_lines-answers}
use golang_debugger_skill.Cli.{Outcome, says, main, command_of}
use golang_debugger_skill.Cli.Quiet.{main-down}
use golang_debugger_skill.Cli.ExitCode.{IsProper, main-IsProper}
use golang_debugger_skill.Cli.SameAsTool.{Tells, project, run_tool-main}
use golang_debugger_skill.Daemon.Dispatch.{dispatch}
use golang_debugger_skill.Daemon.State.{call, current}
use golang_debugger_skill.Daemon.Host.{Host}
use golang_debugger_skill.Daemon.Serve.{is_command}
use golang_debugger_skill.System.{Joined, joined}
use golang_debugger_skill.System.Commands.{told, main-dispatch, main-stopped}
use golang_debugger_skill.Tests.Fixtures.{toy, host}
use golang_debugger_skill.Tests.Wire.{
  navigator_over, shell_over, Machine, wire, quiet, work, navigator, input_lines, shell,
}

-- There is a `go.mod` in /work only.
abbrev has_module : FilePath → Bool
has_module (name ∷ dir ∷ []) = true
has_module _ = false

project_root-IsNearest_example :
    IsNearest has_module
      (text "src" ∷ work)
      (text "src" ∷ work)
      (project_root has_module (value (text "src" ∷ work)) work)
project_root-IsNearest_example = project_root-IsNearest has_module (text "src" ∷ work) work

wire-IsClock : IsClock wire
wire-IsClock = record { dial_forward = λ root s. omega arith; sleep_forward = λ n s. omega arith }

send-ends_example : IsReturn (send wire enough work (text "breaks" ∷ []) quiet).0
send-ends_example = send-ends wire wire-IsClock work (text "breaks" ∷ []) quiet

-- A breakpoint that looks like a flag, and an argument after it
abbrev odd_launch : Members
odd_launch = member (text "pkg") (string (text "./cmd")) (
    member (text "breakpoints") (array (item (string (text "--pkg")) no_items))
      (member (text "args") (array (item (string (text "-v")) no_items)) no_members))

parse_args-launch_argv_example :
    (p : Parsed) × (parse_args (drop 1 (launch_argv (text "launch") odd_launch)) launch_spec
      ≡ value p)
    × IsMeant (text "launch") odd_launch p
parse_args-launch_argv_example = parse_args-launch_argv (text "launch") odd_launch

serve_lines-answers_example :
    Holds
      (λ rs. map (λ r. r.id) rs ≡ ids input_lines)
      (serve_lines wire navigator enough work input_lines quiet).0
serve_lines-answers_example = serve_lines-answers wire wire-IsClock navigator work input_lines quiet

abbrev IsAsleep : Machine → Type 0
IsAsleep m = m.daemon_runs ≡ false

wire-IsTransparent : IsTransparent wire IsAsleep
wire-IsTransparent = record { dials = λ root s h. h; sends = λ req s h. h; reads = λ s h. h }

main-down_example : Preserves IsAsleep (main wire navigator shell enough (text "stop" ∷ []))
main-down_example =
    main-down wire navigator shell wire-IsTransparent enough (text "stop") []
      (unfold command_of text in refl)

main-IsProper_example :
    Holds IsProper (main wire navigator shell enough (text "continue" ∷ []) quiet).0
main-IsProper_example =
    main-IsProper wire wire-IsClock navigator shell (text "continue" ∷ []) quiet
      (unfold command_of text in refl)

run_tool-main_example :
    Tells
      (run_tool wire navigator enough
        (project wire navigator shell enough quiet)
        (forward (alone (text "pause")))
        no_members
        quiet)
      (main wire navigator shell enough (text "pause" ∷ []) quiet)
run_tool-main_example =
    run_tool-main wire navigator shell enough (alone (text "pause")) no_members (text "pause") []
      quiet (unfold alone in refl) (unfold command_of text in refl)

-- The scripted debugger's daemon, with a session.
abbrev with_session : Joined toy
with_session = record { host = host; running = true; reply = none; clock = 3 }

abbrev breaks_run : Res Text × Host toy
breaks_run =
    dispatch toy 8 8 (text "/work") (text "breaks" ∷ [])
      (record host { req_env = text "HOME=/root" ∷ [] })

breaks_text_now : Text
unfolding dispatch text
breaks_text_now = elim breaks_run.0 [ ok t ↦ t | _ ↦ [] ]

breaks_answers : breaks_run.0 ≡ ok breaks_text_now
unfolding breaks_text_now dispatch text ◌>>=◌ call current
breaks_answers = refl

breaks_returns : breaks_run.0 ≢ pending
breaks_returns p = let q : ok breaks_text_now ≡ pending = sym breaks_answers ∙ p in cc

main-dispatch_example :
    main
      (joined toy 8 8 (text "/work") (text "HOME=/root" ∷ []))
      (navigator_over (Joined toy))
      (shell_over (Joined toy))
      enough
      (text "breaks" ∷ [])
      with_session
    ≡ told with_session breaks_run
main-dispatch_example =
    main-dispatch toy 8 8 (text "/work") (text "HOME=/root" ∷ []) (navigator_over (Joined toy))
      (shell_over (Joined toy)) enough (text "breaks") [] with_session refl
      (unfold command_of text in refl) (unfold is_command text_eq text in refl) breaks_returns

abbrev after_down : Res Outcome × Joined toy
after_down =
    main (joined toy 8 8 (text "/work") []) (navigator_over (Joined toy)) (shell_over (Joined toy))
      enough (text "down" ∷ []) with_session

main-stopped_example :
    (after_down.0 ≡ ok (says (text "daemon stopped")))
    × ((after_down.1.running ≡ false) × (after_down.1.host.sess ≡ none))
main-stopped_example =
    main-stopped toy 8 8 (text "/work") [] (navigator_over (Joined toy)) (shell_over (Joined toy))
      enough [] with_session refl
