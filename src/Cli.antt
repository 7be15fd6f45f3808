-- ===== src/Cli.antt =====
-- cmd/gdbg/main.go.
pub mod Usage
pub mod Quiet
pub mod ExitCode
pub mod SameAsTool
use golang_debugger_skill.Base.{
  ℕ, Bool, true, false, ◌||◌, ◌&&◌, Option, none, some, List, [], ◌∷◌, ◌++◌, Text, text, text_eq,
  if◌then◌else◌, newline, Try, value, error, M, pure, attempt, ◌>>=◌, ok, atoi, ℤ,
}
use golang_debugger_skill.Client.Root.{FilePath, project_root, show_path}
use golang_debugger_skill.Client.Link.{Link}
use golang_debugger_skill.Client.Send.{send, send_if_running}
use golang_debugger_skill.Daemon.Serve.{Response}
use golang_debugger_skill.Nav.Where.{Navigator, where_, gopls}
use golang_debugger_skill.Cli.Usage.{usage}
use golang_debugger_skill.Mcp.Serve.{RpcResponse, Line, serve_lines}

-- What a run of the program leaves: what it prints, on either stream, and its exit code.
pub data Output : Type 0 where
  printed : Text → Output
  replied : List RpcResponse → Output

pub record Outcome : Type 0 where
  pub out : Output
  pub err : Text
  pub code : ℕ

-- `fmt.Println(t)` as the last thing done
abbrev pub says : Text → Outcome
says t = record { out = printed (t ++ (newline ∷ [])); err = []; code = 0 }

-- `fmt.Fprintln(os.Stderr, t); os.Exit(1)`
abbrev pub fails : Text → Outcome
fails t = record { out = printed []; err = t ++ (newline ∷ []); code = 1 }

unfoldable pub die : Text → Outcome
unfolding text
die msg = fails (text "error: " ++ msg)

unfoldable pub finish : Try Text → Outcome
unfolding die
finish (value t) = says t
finish (error e) = die e

abbrev pub sent : Try Response → Outcome
sent (error e) = die e
sent (value resp) = if resp.is_error then fails resp.content else says resp.content

abbrev pub sent_if_running : Try Response → Outcome
sent_if_running (error e) = says (text "no daemon running")
sent_if_running (value resp) = says resp.content

-- `err` of `daemon.Run` and `mcp.Serve`, with what `log.Printf` has written to the error stream before
abbrev pub ended : (what : Text) → Output → (logged : Text) → Option Text → Outcome
ended what out logged none = record { out = out; err = logged; code = 0 }
ended what out logged (some e) = record {
  out = out;
  err = logged ++ (what ++ (b' ' ∷ (e ++ (newline ∷ []))));
  code = 1;
}

-- The command line's first word.
pub data Subcommand : Type 0 where
  help daemon mcp where_is ask_gopls down forwarded : Subcommand

unfoldable pub command_of : Text → Subcommand
unfolding text text_eq
command_of a =
    if text_eq a (text "help") || text_eq a (text "-h") || text_eq a (text "--help")
    then help
    else if text_eq a (text "__daemon")
    then daemon
    else if text_eq a (text "mcp")
    then mcp
    else if text_eq a (text "where")
    then where_is
    else if text_eq a (text "def") || text_eq a (text "hover") || text_eq a (text "refs")
    then ask_gopls
    else if text_eq a (text "down") || text_eq a (text "stop")
    then down
    else forwarded

-- The map from a command to gopls' verb.
unfoldable pub verb_of : Text → Text
unfolding text text_eq
verb_of cmd =
    if text_eq cmd (text "def")
    then text "definition"
    else if text_eq cmd (text "hover")
    then text "hover"
    else if text_eq cmd (text "refs")
    then text "references"
    else []

-- The process's own surroundings, and `daemon.Run`, which returns when the daemon
-- ends: its error, and what it has logged to the error stream.
pub record Process (S : Type 0) : Type 0 where
  pub exists : S → FilePath → Bool
  pub working_dir : S → Try FilePath
  pub here : FilePath
  pub input : S → List Line
  pub input_error : S → Option Text
  pub run_daemon : (root : Text) → S → (Option Text × Text) × S
  pub printable : ℕ → Bool

module _ (N : Link) (V : Navigator N.State) (C : Process N.State) (rounds : ℕ) where
  abbrev Task : Type 0 → Type 0
  Task A = M N.State A

  unfoldable pub root_dir : Task FilePath
  unfolding project_root
  root_dir s = (ok (project_root (C.exists s) (C.working_dir s) C.here), s)

  daemon_root : FilePath → List Text → Text
  unfolding show_path
  daemon_root root [] = show_path root
  daemon_root root (dir ∷ rest) = dir

  run_daemon : Text → Task (Option Text × Text)
  run_daemon root s = let (e, s') = C.run_daemon root s in (ok e, s')

  read_input : Task (List Line × Option Text)
  read_input s = (ok (C.input s, C.input_error s), s)

  serve_mcp : FilePath → Task Outcome
  unfolding read_input serve_lines text
  serve_mcp root = do
    r ← read_input
    rs ← serve_lines N V rounds root r.0
    pure (ended (text "mcp:") (replied rs) [] r.1)

  find_where : FilePath → List Text → Task Outcome
  unfolding where_ finish die text
  find_where root (name ∷ []) = do r ← attempt (where_ V root name); pure (finish r)
  find_where root _ = pure (die (text "usage: gdbg where <name>"))

  at_place : FilePath → (cmd file : Text) → Try ℤ → Try ℤ → Task Outcome
  unfolding gopls finish die verb_of text
  at_place root cmd file (value line) (value col) = do
    r ← attempt (gopls V root (verb_of cmd) file line col)
    pure (finish r)
  at_place root cmd file _ _ = pure (die (text "line and col must be numbers"))

  navigate : FilePath → (cmd : Text) → List Text → Task Outcome
  unfolding at_place atoi die text
  navigate root cmd (file ∷ line ∷ col ∷ []) =
      at_place root cmd file (atoi C.printable line) (atoi C.printable col)
  navigate root cmd _ = pure (die (text "usage: gdbg " ++ (cmd ++ text " <file> <line> <col>")))

  unfoldable pub carry_out : Subcommand → FilePath → (cmd : Text) → List Text → Task Outcome
  unfolding daemon_root run_daemon serve_mcp find_where navigate send_if_running send text usage
  carry_out help root cmd args = pure (record { out = printed usage; err = []; code = 0 })
  carry_out daemon root cmd args = do
    e ← run_daemon (daemon_root root args)
    pure (ended (text "daemon:") (printed []) e.1 e.0)
  carry_out mcp root cmd args = serve_mcp root
  carry_out where_is root cmd args = find_where root args
  carry_out ask_gopls root cmd args = navigate root cmd args
  carry_out down root cmd args = do
    r ← attempt (send_if_running N root (cmd ∷ args))
    pure (sent_if_running r)
  carry_out forwarded root cmd args = do
    r ← attempt (send N rounds root (cmd ∷ args))
    pure (sent r)

  -- `os.Args[1:]` and what it leads to.
  unfoldable pub main : List Text → Task Outcome
  unfolding root_dir carry_out command_of usage
  main [] = pure (record { out = printed usage; err = []; code = 0 })
  main (cmd ∷ args) = do root ← root_dir; carry_out (command_of cmd) root cmd args
