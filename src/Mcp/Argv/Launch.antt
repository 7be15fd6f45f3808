-- ===== src/Mcp/Argv/Launch.antt =====
-- What the daemon's parser reads from the vector that `launchArgv` builds.
use golang_debugger_skill.Base.{
  ◌≡◌, refl, ◌∙◌, Bool, true, false, none, List, [], ◌∷◌, ◌++◌, append_assoc, All, All-append, Text,
  text, text_eq, if◌then◌else◌, value,
}
use golang_debugger_skill.Daemon.Args.Flags.{Flags, add_value, classify, parse_loop, parse_args}
use golang_debugger_skill.Daemon.Args.Modes.{launch_spec}
use golang_debugger_skill.Daemon.Args.RoundTrip.{Options, filled, parse_loop-dashes}
use golang_debugger_skill.Daemon.Args.Spaced.{Takes, parse_loop-spaced}
use golang_debugger_skill.Mcp.Json.{Members, list_arg}
use golang_debugger_skill.Mcp.Argv.{switch_with, after_dashes}
use golang_debugger_skill.Mcp.Argv.Options.{
  one, each, asked_trace, asked, stays, argv_options, argv_options-asked,
}

-- The parser takes each of the options with its value.
record AllTaken (opts : Options) : Type 0 where
  at : All (λ o. Takes launch_spec o.0) opts

one-AllTaken : (name v : Text) → Takes launch_spec name → AllTaken (one name v)
one-AllTaken name [] t = record { at = tt }
one-AllTaken name (c ∷ v) t = record { at = (t, tt) }

each-AllTaken : (name : Text) (vs : List Text) → Takes launch_spec name → AllTaken (each name vs)
each-AllTaken name [] t = record { at = tt }
each-AllTaken name (v ∷ vs) t = record { at = (t, (each-AllTaken name vs t).at) }

both-AllTaken : (o p : Options) → AllTaken o → AllTaken p → AllTaken (o ++ p)
both-AllTaken o p k l = record { at = All-append _ o p k.at l.at }

trace-AllTaken : (b : Bool) (a : Members) → AllTaken (if b then asked_trace a else [])
unfolding asked_trace classify launch_spec text
trace-AllTaken true a = both-AllTaken _ _ (one-AllTaken _ _ refl) (one-AllTaken _ _ refl)
trace-AllTaken false a = record { at = tt }

asked-AllTaken : (cmd : Text) (a : Members) → AllTaken (asked cmd a)
unfolding asked classify launch_spec text
asked-AllTaken cmd a =
    both-AllTaken _ _
      (both-AllTaken _ _
        (both-AllTaken _ _
          (both-AllTaken _ _
            (both-AllTaken _ _ (both-AllTaken _ _ (one-AllTaken _ _ refl) (one-AllTaken _ _ refl))
              (one-AllTaken _ _ refl))
            (each-AllTaken _ _ refl))
          (each-AllTaken _ _ refl))
        (one-AllTaken _ _ refl))
      (trace-AllTaken (text_eq cmd (text "trace")) a)

abbrev pub staying : Bool → Options
staying b = if b then (text "stop-entry", []) ∷ [] else []

-- The flags that the parser fills from the vector.
unfoldable pub flags_of : (cmd : Text) → Members → Flags
flags_of cmd a = filled (staying (stays cmd a)) (filled (asked cmd a) [])

parse_loop-after :
    (args : List Text) (flags : Flags)
    → parse_loop launch_spec (after_dashes args) none flags []
      ≡ value (record { flags = flags; pos = []; rest = args })
unfolding parse_loop
parse_loop-after [] flags = refl
parse_loop-after (arg ∷ args) flags = parse_loop-dashes launch_spec (arg ∷ args) flags []

parse_loop-staying :
    (b : Bool) (args : List Text) (flags : Flags)
    → parse_loop launch_spec
        (switch_with (text "--stop-entry") b ++ after_dashes args)
        none
        flags
        []
      ≡ value (record { flags = filled (staying b) flags; pos = []; rest = args })
unfolding parse_loop launch_spec classify text
parse_loop-staying false args flags = parse_loop-after args flags
parse_loop-staying true args flags = parse_loop-after args (add_value flags (text "stop-entry") [])

pub parse_args-argv :
    (cmd : Text) (a : Members)
    → parse_args
        (argv_options cmd a
          ++ switch_with (text "--stop-entry") (stays cmd a)
          ++ after_dashes (list_arg a (text "args")))
        launch_spec
      ≡ value (record { flags = flags_of cmd a; pos = []; rest = list_arg a (text "args") })
unfolding parse_args flags_of
parse_args-argv cmd a =
    rw (append_assoc, argv_options-asked cmd a)
      (parse_loop-spaced launch_spec (asked cmd a) _ [] [] (asked-AllTaken cmd a).at
        ∙ parse_loop-staying (stays cmd a) (list_arg a (text "args")) (filled (asked cmd a) []))
