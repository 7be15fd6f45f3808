-- ===== src/Tests/Words.antt =====
-- Command lines, values and counts at concrete data.
use golang_debugger_skill.Base.{
  ◌-◌, ◌≤◌, ◌<◌, ◌≡◌, ◌≢◌, ◌↔◌, refl, Bool, true, false, none, List, [], ◌∷◌, ◌++◌, Text, text,
  text_eq, length, take, last, ℤ, pos, value, arith, has_prefix, strip_prefix, trim_prefix, cut,
  is_some, All,
}
use golang_debugger_skill.Dlv.Proc.{Proc, output_ring_size, is_notice, append_lines, new_output}
use golang_debugger_skill.Dlv.Proc.Ring.{IsRing, accepted, new_output-append_lines}
use golang_debugger_skill.Daemon.Args.Flags.{Flags, lookup, values, dashes, parse_loop, parse_args}
use golang_debugger_skill.Daemon.Args.Laws.{IsFlag, Lacks, long, long_with, parse_loop-long}
use golang_debugger_skill.Daemon.Args.RoundTrip.{
  Options, written, given, Known, parse_args-written, parse_args-Known,
}
use golang_debugger_skill.Daemon.Args.Modes.{break_spec, Mode, test, launch_mode}
use golang_debugger_skill.Daemon.Args.Modes.Launch.{target_of, launch_mode_iff}
use golang_debugger_skill.Daemon.Render.Inline.{inline_value, inline_var}
use golang_debugger_skill.Daemon.Render.Inline.Bounds.{inline_var-cap}
use golang_debugger_skill.Daemon.Host.{UsageRecord}
use golang_debugger_skill.Daemon.Usage.{Stat, count_all, sort_stats}
use golang_debugger_skill.Daemon.Usage.Totals.{counts_of, runs_in, errors_in}
use golang_debugger_skill.Daemon.Usage.Rows.{IsMerged, IsSorted, sort_stats-count_all}
use golang_debugger_skill.Tests.Fixtures.{total}

-- One line is buffered and seen.
abbrev read_once : Proc
read_once = record { output = text "start" ∷ []; seen = 1 }

abbrev printed : List Text
printed = text "API server listening at: 127.0.0.1:4" ∷ text "paid 1" ∷ text "paid 2" ∷ []

abbrev after_print : Proc
after_print = append_lines printed (new_output read_once).1

read_once-IsRing : IsRing read_once
read_once-IsRing = record { bounded = omega arith; in_range = omega arith }

new_output-append_lines_example :
    ((new_output after_print).0 ≡ last output_ring_size (accepted printed))
    × ((new_output (new_output after_print).1).0 ≡ [])
    × IsRing (new_output after_print).1
new_output-append_lines_example = new_output-append_lines read_once printed read_once-IsRing

accepted_test : accepted printed ≡ text "paid 1" ∷ text "paid 2" ∷ []
unfolding is_notice has_prefix strip_prefix text
accepted_test = refl

abbrev options : Options
options = (text "if", text "n == 2") ∷ (text "log", text "") ∷ (text "if", text "--x") ∷ []

option :
    (name : Text)
    → name ≢ []
    → Lacks b'=' name
    → is_some (lookup name break_spec) ≡ true
    → IsFlag break_spec name
option name ne lacks known = record { named = ne; plain = lacks; known = known }

options-IsFlag : All (λ o. IsFlag break_spec o.0) options
unfolding text lookup text_eq break_spec
options-IsFlag = (
  option (text "if") (λ e. cc) ((λ e. cc), ((λ e. cc), tt)) refl,
  (
    option (text "log") (λ e. cc) ((λ e. cc), ((λ e. cc), ((λ e. cc), tt))) refl,
    (option (text "if") (λ e. cc) ((λ e. cc), ((λ e. cc), tt)) refl, tt),
  ),
)

parse_args-written_example :
    (flags : Flags) × (parse_args
        (written options (text "a.go:7" ∷ dashes ∷ text "--if" ∷ []))
        break_spec
      ≡ value (record { flags = flags; pos = text "a.go:7" ∷ []; rest = text "--if" ∷ [] }))
    × ((k : Text) → values flags k ≡ given k options)
unfolding text dashes has_prefix
parse_args-written_example =
    parse_args-written break_spec options (text "a.go:7" ∷ []) (text "--if" ∷ []) options-IsFlag
      (refl, tt)

parse_loop-long_example :
    parse_loop break_spec (long (text "if") ∷ text "--x" ∷ text "a.go:7" ∷ []) none [] []
    ≡ parse_loop break_spec (long_with (text "if") (text "--x") ∷ text "a.go:7" ∷ []) none [] []
unfolding text lookup text_eq break_spec
parse_loop-long_example =
    parse_loop-long break_spec (text "if") (text "--x") (text "a.go:7" ∷ []) [] [] (λ e. cc)
      ((λ e. cc), ((λ e. cc), tt)) refl

parse_args-Known_example : Known break_spec ((text "if", text "n" ∷ []) ∷ [])
unfolding text lookup text_eq break_spec parse_args parse_loop has_prefix strip_prefix trim_prefix
    cut dashes
parse_args-Known_example =
    parse_args-Known break_spec (text "a.go:7" ∷ text "--if" ∷ text "n" ∷ [])
      {p = record { flags = (text "if", text "n" ∷ []) ∷ []; pos = text "a.go:7" ∷ []; rest = [] }}
      refl

abbrev test_options : Flags
test_options = (text "test", text "./pay" ∷ []) ∷ (text "max", text "3" ∷ []) ∷ []

launch_mode_iff_example : (launch_mode test_options ≡ value (test, text "./pay")) ↔ (
    (target_of test_options test ≡ text "./pay")
    × (text "./pay" ≢ [])
    × ((other : Mode) → other ≢ test → target_of test_options other ≡ []))
launch_mode_iff_example = launch_mode_iff test_options test (text "./pay")

inline_var-cap_example :
    let whole = inline_value (λ c. true) total 3 in
    (length whole ≤ 1 → inline_var (λ c. true) total 1 ≡ whole)
    × (1 < length whole
        → (inline_var (λ c. true) total 1 ≡ take (1 - 1) whole ++ text "…")
          × (length (inline_var (λ c. true) total 1) ≡ 1))
inline_var-cap_example = inline_var-cap (λ c. true) total 1 (omega arith)

abbrev templates : List (ℤ × Text)
templates = (pos 1, text "n={n}") ∷ (pos 4, text "here") ∷ []

abbrev used : Text → Bool → UsageRecord
used cmd ok = record { ts = text "t"; cmd = cmd; args = []; ok = ok }

abbrev records : List UsageRecord
records = used (text "bt") true ∷ used (text "step") true ∷ used (text "step") false ∷ []

abbrev table : List Stat
table = sort_stats (count_all records [])

sort_stats-count_all_example :
    IsMerged table
    × All (λ s. (s.n ≡ runs_in s.cmd records) × (s.errs ≡ errors_in s.cmd records)) table
    × ((c : Text) → counts_of (λ s. s.n) c table ≡ runs_in c records)
    × IsSorted table
sort_stats-count_all_example = sort_stats-count_all records
