-- ===== src/Dlv/Spawn.antt =====
-- `Spawn` of internal/dlv/spawn.go: the arguments of dlv, the goroutine that reads its output, and the
-- wait for the address.
pub mod Waiting
pub mod Clean
use golang_debugger_skill.Base.{
  ℕ, ◌==◌, ◌||◌, Bool, true, false, not, Option, none, some, List, [], ◌∷◌, ◌++◌, Text, text,
  strip_prefix, is_empty, join, newline, if◌then◌else◌, Try, value, error, M, ok, err, pending,
  pure, fail, ask, ◌>>=◌, ◌>>◌,
}
use golang_debugger_skill.Dlv.Proc.{Proc, append_output, append_lines, fresh}

abbrev after_dashes : List Text → List Text
after_dashes [] = []
after_dashes (arg ∷ args) = text "--" ∷ arg ∷ args

unfoldable pub spawn_args : (mode target build_flags : Text) → (target_args : List Text) → List Text
unfolding text
spawn_args mode target build_flags target_args =
    mode
      ∷ target
      ∷ text "--headless"
      ∷ text "--api-version=2"
      ∷ text "--accept-multiclient"
      ∷ text "--listen=127.0.0.1:0"
      ∷ (if is_empty build_flags then [] else (text "--build-flags=" ++ build_flags) ∷ [])
    ++ after_dashes target_args

-- `\s` of a regular expression
unfoldable pub is_gap : ℕ → Bool
is_gap c = c == b' ' || c == b'\t' || c == b'\n' || c == 12 || c == b'\r'

-- `(\S+)` at the start of a text: the longest run, if there is one.
unfoldable pub run_of : Text → Text
unfolding is_gap
run_of [] = []
run_of (c ∷ s) = let run = run_of s in if is_gap c then [] else c ∷ run

unfoldable pub listening : Text
unfolding text
listening = text "API server listening at: "

abbrev run_after : Option Text → Text
run_after none = []
run_after (some s) = run_of s

-- `listenRe.FindStringSubmatch(line)`: the group of the leftmost match.
unfoldable pub listen_address : Text → Option Text
unfolding run_of strip_prefix listening
listen_address [] = none
listen_address (c ∷ s) =
    let run = run_after (strip_prefix listening (c ∷ s)) in
    let later = listen_address s in if is_empty run then later else some run

-- What the reader goroutine knows.
pub record Reader : Type 0 where
  pub addr : Option Text
  pub pre : List Text
  pub proc : Proc

abbrev pub no_output : Reader
no_output = record { addr = none; pre = []; proc = fresh }

-- A line before the address: `gotAddr` is that there is one.
abbrev pub first_lines : Text → Option Text → Reader → Reader
first_lines line (some a) r = record r { addr = some a }
first_lines line none r = record r { pre = r.pre ++ (line ∷ []) }

abbrev pub by_addr : Text → Option Text → Reader → Reader
by_addr line none r = first_lines line (listen_address line) r
by_addr line (some a) r = record r { proc = append_output line r.proc }

unfoldable pub read_line : Text → Reader → Reader
unfolding append_output listen_address
read_line line r = by_addr line r.addr r

unfoldable pub read_lines : List Text → Reader → Reader
unfolding read_line
read_lines [] r = r
read_lines (line ∷ lines) r = read_lines lines (read_line line r)

-- What the wait sees, in the order in which it comes.
pub data Event : Type 0 where
  line_read : Text → Event
  output_closed : Event
  timed_out : Event

-- How the wait ends. Without an end among the events it goes on.
pub data Wait : Type 0 where
  serving : (addr : Text) → Reader → Wait
  exited : (message : Text) → Wait
  late : Wait
  waiting : Reader → Wait

abbrev pub look : Option Text → Reader → Wait → Wait
look none r rest = rest
look (some a) r rest = serving a r

unfoldable pub await : List Event → Reader → Wait
unfolding read_line join text
await [] r = waiting r
await (line_read line ∷ events) r = let r' = read_line line r in look r'.addr r' (await events r')
await (output_closed ∷ events) r =
    exited (text "dlv exited before serving:\n" ++ join (newline ∷ []) r.pre)
await (timed_out ∷ events) r = late

-- The search path, the start of dlv with its output read, and its end. With no environment given it
-- has the daemon's own. `reap` is `Wait`, `kill` is `Kill`.
pub record Launcher (S : Type 0) : Type 0 where
  pub look_path : Text → S → Bool
  pub start : (args : List Text) (dir : Text) (env : Option (List Text)) → S → Try (List Event) × S
  pub reap : S → S
  -- the lines that the reader has passed on since
  pub arrived : S → List Text × S
  pub kill : S → S

module _ {S : Type 0} (L : Launcher S) where
  found : Text → M S Bool
  found name s = (ok (L.look_path name s), s)

  do_op : (S → S) → M S (Unit {0})
  do_op op s = (ok tt, op s)

  settle_wait : Wait → M S (Text × Reader)
  unfolding do_op text
  settle_wait (serving a r) = pure (a, r)
  settle_wait (exited message) = do_op L.reap >>= λ _. fail message
  settle_wait late = do_op L.kill >>= λ _. fail (text "timed out waiting for dlv to start")
  settle_wait (waiting r) = λ s. (pending, s)

  started :
      (dir mode target build_flags : Text)
      → (target_args : List Text) (env : Option (List Text)) → M S (Text × Reader)
  unfolding settle_wait spawn_args await
  started dir mode target build_flags target_args env = do
    events ← ask (L.start (spawn_args mode target build_flags target_args) dir env)
    settle_wait (await events no_output)

  unfoldable pub spawn :
      (dir mode target build_flags : Text)
      → (target_args : List Text) (env : Option (List Text)) → M S (Text × Reader)
  unfolding found started text
  spawn dir mode target build_flags target_args env = do
    there ← found (text "dlv")
    if there
        then started dir mode target build_flags target_args env
        else fail (
            text
              "dlv not found on PATH; install it with: go install github.com/go-delve/delve/cmd/dlv@latest")
