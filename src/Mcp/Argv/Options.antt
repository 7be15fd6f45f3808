-- ===== src/Mcp/Argv/Options.antt =====
-- The vector of `launchArgv` as options with their values.
use golang_debugger_skill.Base.{
  ◌≡◌, refl, sym, ◌∙◌, Bool, true, false, ◌&&◌, List, [], ◌∷◌, ◌++◌, Text, text, text_eq, is_empty,
  if◌then◌else◌,
}
use mathlib.Core.Path.{ap₂}
use golang_debugger_skill.Daemon.Args.Flags.{dashes}
use golang_debugger_skill.Daemon.Args.Laws.{long}
use golang_debugger_skill.Daemon.Args.RoundTrip.{Options}
use golang_debugger_skill.Daemon.Args.Spaced.{spaced, spaced-append}
use golang_debugger_skill.Mcp.Json.{Members, string_arg, bool_arg, list_arg}
use golang_debugger_skill.Mcp.Argv.{
  option_with, each_with, switch_with, after_dashes, trace_options, launch_argv,
}

abbrev pub one : (name v : Text) → Options
one name v = if is_empty v then [] else (name, v) ∷ []

abbrev pub each : (name : Text) → List Text → Options
each name [] = []
each name (l ∷ ls) = (name, l) ∷ each name ls

-- What the tool's caller asks for, as options.
unfoldable pub asked_trace : Members → Options
unfolding text
asked_trace a =
    one (text "capture") (string_arg a (text "capture"))
    ++ one (text "max") (string_arg a (text "max_hits"))

unfoldable pub asked : (cmd : Text) → Members → Options
unfolding text asked_trace
asked cmd a =
    one (text "pkg") (string_arg a (text "pkg"))
    ++ one (text "test") (string_arg a (text "test"))
    ++ one (text "bin-path") (string_arg a (text "bin_path"))
    ++ each (text "break") (list_arg a (text "breakpoints"))
    ++ each (text "break-fn") (list_arg a (text "break_functions"))
    ++ one (text "build-flags") (string_arg a (text "build_flags"))
    ++ (if text_eq cmd (text "trace") then asked_trace a else [])

option_with-one : (name v : Text) → option_with (long name) v ≡ spaced (one name v)
unfolding option_with
option_with-one name [] = refl
option_with-one name (c ∷ v) = refl

each_with-each : (name : Text) (vs : List Text) → each_with (long name) vs ≡ spaced (each name vs)
unfolding each_with
each_with-each name [] = refl
each_with-each name (v ∷ vs) = rw (each_with-each name vs)

spaced-both :
    (o p : Options) {xs ys : List Text} → xs ≡ spaced o → ys ≡ spaced p → xs ++ ys ≡ spaced (o ++ p)
spaced-both o p e f = ap₂ (λ s t. s ++ t) e f ∙ sym (spaced-append o p)

trace_options-asked : (a : Members) → trace_options a ≡ spaced (asked_trace a)
unfolding trace_options asked_trace dashes text
trace_options-asked a = spaced-both _ _ (option_with-one _ _) (option_with-one _ _)

for_trace :
    (b : Bool) (a : Members)
    → (if b then trace_options a else []) ≡ spaced (if b then asked_trace a else [])
for_trace true a = trace_options-asked a
for_trace false a = refl

pub argv_options : (cmd : Text) → Members → List Text
unfolding option_with each_with trace_options string_arg list_arg text
argv_options cmd a =
    option_with (text "--pkg") (string_arg a (text "pkg"))
    ++ option_with (text "--test") (string_arg a (text "test"))
    ++ option_with (text "--bin-path") (string_arg a (text "bin_path"))
    ++ each_with (text "--break") (list_arg a (text "breakpoints"))
    ++ each_with (text "--break-fn") (list_arg a (text "break_functions"))
    ++ option_with (text "--build-flags") (string_arg a (text "build_flags"))
    ++ (if text_eq cmd (text "trace") then trace_options a else [])

pub argv_options-asked : (cmd : Text) (a : Members) → argv_options cmd a ≡ spaced (asked cmd a)
unfolding argv_options asked dashes text
argv_options-asked cmd a =
    spaced-both _ _
      (spaced-both _ _
        (spaced-both _ _
          (spaced-both _ _
            (spaced-both _ _ (spaced-both _ _ (option_with-one _ _) (option_with-one _ _))
              (option_with-one _ _))
            (each_with-each _ _))
          (each_with-each _ _))
        (option_with-one _ _))
      (for_trace (text_eq cmd (text "trace")) a)

-- Does the vector ask to stay before main?
unfoldable pub stays : (cmd : Text) → Members → Bool
unfolding text_eq text
stays cmd a = text_eq cmd (text "launch") && bool_arg a (text "stop_entry")

pub launch_argv-options :
    (cmd : Text) (a : Members)
    → launch_argv cmd a
      ≡ cmd
        ∷ (argv_options cmd a
            ++ switch_with (text "--stop-entry") (stays cmd a)
            ++ after_dashes (list_arg a (text "args")))
unfolding launch_argv argv_options stays text
launch_argv-options cmd a = refl
