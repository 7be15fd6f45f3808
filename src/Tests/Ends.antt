-- ===== src/Tests/Ends.antt =====
-- Navigation, the start of dlv and the life of a daemon, at concrete data.
use golang_debugger_skill.Base.{
  true, ℕ, List, zero, arith, suc, error, ok, ltb, if◌then◌else◌, ◌≡◌, refl, false, none, some, [],
  ◌∷◌, ◌++◌, map, Text, text, value, join, newline, contains, has_prefix, strip_prefix, false,
}
use golang_debugger_skill.Nav.Syntax.{ident, star, Func, func_decl, Entry, file, dir, entry, end}
use golang_debugger_skill.Nav.Signature.{signature, type_string, field_strings, comma}
use golang_debugger_skill.Nav.Signature.Plain.{signature-plain}
use golang_debugger_skill.Nav.Walk.{walk}
use golang_debugger_skill.Nav.Walk.Visible.{visible_hits, all_files, walk-all_files}
use golang_debugger_skill.Dlv.Proc.{append_lines, fresh}
use golang_debugger_skill.Dlv.Spawn.{
  listen_address, no_output, read_lines, line_read, output_closed, timed_out, serving, exited, late,
  await,
}
use golang_debugger_skill.Dlv.Spawn.Waiting.{await-endings}
use golang_debugger_skill.Daemon.Life.{Life, over, born, begin_request}
use golang_debugger_skill.Daemon.Life.Reach.{IsSound, starts, goes, begins, Reachable-IsSound}
use golang_debugger_skill.Daemon.Life.Idle.{ticks, ticks-ends}
use golang_debugger_skill.Dlv.Spawn.{Launcher}
use golang_debugger_skill.Dlv.Spawn.Clean.{IsFreeing, FreeIfError}
use golang_debugger_skill.Dlv.Dial.{Dialer, dial_loop}
use golang_debugger_skill.Dlv.Dial.First.{after, dial_loop-first}
use golang_debugger_skill.Daemon.Start.{start_debugger}
use golang_debugger_skill.Daemon.Start.Clean.{start_debugger-FreeIfError}
use golang_debugger_skill.Tests.Fixtures.{toy}

-- func pay(n int) *Bill
abbrev pay : Func
pay = record {
  name = text "pay";
  receiver = none;
  params = some (record { names = text "n" ∷ []; type = ident (text "int") } ∷ []);
  results = some (record { names = []; type = star (ident (text "Bill")) } ∷ []);
  line = 7;
}

bill-plain : contains (text "Bill") (b' ' ∷ []) ≡ false
unfolding contains has_prefix strip_prefix text
bill-plain = refl

signature-plain_example :
    signature pay
    ≡ text "("
      ++ (join comma (field_strings pay.params)
          ++ (text ")" ++ (b' ' ∷ type_string (star (ident (text "Bill"))))))
signature-plain_example = signature-plain pay (star (ident (text "Bill"))) bill-plain refl

abbrev tree : Entry
tree = dir (text "work") (
    entry (file (text "pay.go") (value (func_decl pay ∷ []))) (
      entry (dir (text "vendor") (entry (file (text "pay.go") (value (func_decl pay ∷ []))) end))
        end))

walk-all_files_example :
    walk (text "pay") [] tree ≡ visible_hits (text "pay") (all_files [] [] tree)
walk-all_files_example = walk-all_files (text "pay") tree

-- The daemon that has just begun, and one that has taken a request.
abbrev newborn : Life toy
newborn = born toy 8 8 (text "/work") 5000 []

Reachable-IsSound_example : IsSound toy (begin_request toy 8 8 (text "/work") none newborn)
Reachable-IsSound_example = Reachable-IsSound toy 8 8 (text "/work") (
    goes newborn (begin_request toy 8 8 (text "/work") none newborn) (starts 5000 [])
      (begins none newborn (unfold born in refl)))

-- Looks of the idle check that each come a second late
abbrev late_by : ℕ → List ℕ
late_by zero = []
late_by (suc n) = 1000 ∷ late_by n

ticks-ends_example :
    ((ticks toy 8 8 (text "/work") (late_by 31) newborn).phase ≡ over)
    × ((ticks toy 8 8 (text "/work") (late_by 31) newborn).host.sess ≡ none)
ticks-ends_example =
    ticks-ends toy 8 8 (text "/work") newborn (late_by 31) (starts 5000 []) (unfold born in refl)
      (omega arith)

abbrev banner : Text
banner = text "API server listening at: 127.0.0.1:4711"

abbrev address : Text
address = text "127.0.0.1:4711"

banner-address : listen_address banner ≡ some address
unfolding listen_address text strip_prefix
banner-address = refl

warning-silent : listen_address (text "warn") ≡ none
unfolding listen_address text strip_prefix
warning-silent = refl

await-endings_example :
    (await (map line_read (text "warn" ∷ []) ++ (line_read banner ∷ [])) no_output
      ≡ serving address (record { addr = some address; pre = text "warn" ∷ []; proc = fresh }))
    × (read_lines
          (text "42" ∷ [])
          (record { addr = some address; pre = text "warn" ∷ []; proc = fresh })
        ≡ record {
          addr = some address;
          pre = text "warn" ∷ [];
          proc = append_lines (text "42" ∷ []) fresh;
        })
    × (await (map line_read (text "warn" ∷ []) ++ (output_closed ∷ [])) no_output
        ≡ exited (text "dlv exited before serving:\n" ++ join (newline ∷ []) (text "warn" ∷ [])))
    × (await (map line_read (text "warn" ∷ []) ++ (timed_out ∷ [])) no_output ≡ late)
await-endings_example =
    await-endings (text "warn" ∷ []) banner address (text "42" ∷ []) [] (warning-silent, tt)
      banner-address

-- A launcher and a dialer over a count of dlv's processes: dlv announces itself and takes no connection.
abbrev launcher : Launcher ℕ
launcher = record {
  look_path = λ name n. true;
  start = λ args dir env n. (value (line_read banner ∷ []), suc n);
  reap = λ n. 0;
  arrived = λ n. ([], n);
  kill = λ n. 0;
}

abbrev dialer : Dialer ℕ
dialer = record {
  connect = λ addr n. (error (text "refused"), n);
  pause = λ n. n;
  set_api_version = λ n. (value tt, n);
}

abbrev NoDlv : ℕ → Type 0
NoDlv n = n ≡ 0

launcher-IsFreeing : IsFreeing launcher NoDlv
launcher-IsFreeing = record {
  kills = λ n. refl;
  reaps = λ n. refl;
  starts_not = λ args dir env n e h p. absurd cc;
}

start_debugger-FreeIfError_example :
    FreeIfError NoDlv
      (start_debugger launcher dialer (text "/work") (text "debug") (text ".") [] [] none 0)
start_debugger-FreeIfError_example =
    start_debugger-FreeIfError launcher dialer NoDlv launcher-IsFreeing (text "/work")
      (text "debug") (text ".") [] [] none 0 refl

-- A dialer that is connected at the third try
abbrev late_dialer : Dialer ℕ
late_dialer = record {
  connect = λ addr n. (if ltb n 2 then error (text "refused") else value tt, n);
  pause = suc;
  set_api_version = λ n. (value tt, n);
}

dial_loop-first_example :
    dial_loop late_dialer 50 address (value tt) 0
    ≡ (ok (value tt), (late_dialer.connect address (after late_dialer address 2 0)).1)
dial_loop-first_example =
    dial_loop-first late_dialer address 2 50 (value tt) 0 (omega arith) (tt, (tt, tt)) refl
