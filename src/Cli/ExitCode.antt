-- ===== src/Cli/ExitCode.antt =====
-- What the program leaves, on every way through it.
use golang_debugger_skill.Base.{
  Finishes, Yields, Holds, Yields-pure, Yields-attempt, Yields-bind, ℕ, ◌≡◌, ◌≢◌, ◌⊎◌, inl, inr,
  refl, Bool, true, false, Option, none, some, List, [], ◌∷◌, ◌++◌, newline, Text, text,
  if◌then◌else◌, M, Try, value, error, attempt, pure, ◌>>=◌, ℤ, atoi,
}
use golang_debugger_skill.Client.Root.{FilePath}
use golang_debugger_skill.Client.Link.{Link}
use golang_debugger_skill.Client.Send.Retry.{IsClock, enough, send-Finishes}
use golang_debugger_skill.Client.Send.Running.{send_if_running-Finishes}
use golang_debugger_skill.Daemon.Serve.{Response}
use golang_debugger_skill.Nav.Where.{Navigator}
use golang_debugger_skill.Nav.Where.Settled.{where_-Finishes, gopls-Finishes}
use golang_debugger_skill.Mcp.Serve.Replies.{serve_lines-Yields}
use golang_debugger_skill.Cli.{
  Outcome, Output, says, fails, die, finish, sent, sent_if_running, ended, Subcommand, help, daemon,
  mcp, where_is, ask_gopls, down, forwarded, verb_of, replied, command_of, Process, root_dir,
  read_input, serve_mcp, find_where, at_place, navigate, carry_out, main,
}

-- The exit code is 0 with nothing on the error stream, or 1 with something there.
abbrev pub IsProper : Outcome → Type 0
IsProper o = ((o.code ≡ 0) × (o.err ≡ [])) ⊎ ((o.code ≡ 1) × (o.err ≢ []))

abbrev serves : Subcommand → Bool
serves daemon = true
serves _ = false

-- The command line is that of `gdbg __daemon`, which logs to the error stream while it serves.
abbrev pub becomes_daemon : List Text → Bool
becomes_daemon [] = false
becomes_daemon (cmd ∷ args) = serves (command_of cmd)

append-ne-nil : (t : Text) (c : ℕ) (u : Text) → t ++ (c ∷ u) ≢ []
append-ne-nil [] c u = λ p. cc
append-ne-nil (d ∷ t) c u = λ p. cc

says-IsProper : (t : Text) → IsProper (says t)
says-IsProper t = inl (refl, refl)

fails-IsProper : (t : Text) → IsProper (fails t)
fails-IsProper t = inr (refl, append-ne-nil t newline [])

die-IsProper : (t : Text) → IsProper (die t)
unfolding die
die-IsProper t = fails-IsProper (text "error: " ++ t)

finish-IsProper : (r : Try Text) → IsProper (finish r)
unfolding finish
finish-IsProper (value t) = says-IsProper t
finish-IsProper (error e) = die-IsProper e

by_is_error : (b : Bool) (t : Text) → IsProper (if b then fails t else says t)
by_is_error true t = fails-IsProper t
by_is_error false t = says-IsProper t

sent-IsProper : (r : Try Response) → IsProper (sent r)
sent-IsProper (value resp) = by_is_error resp.is_error resp.content
sent-IsProper (error e) = die-IsProper e

sent_if_running-IsProper : (r : Try Response) → IsProper (sent_if_running r)
sent_if_running-IsProper (value resp) = says-IsProper resp.content
sent_if_running-IsProper (error e) = says-IsProper (text "no daemon running")

ended-IsProper : (what : Text) (out : Output) (e : Option Text) → IsProper (ended what out [] e)
ended-IsProper what out none = inl (refl, refl)
ended-IsProper what out (some e) = inr (refl, append-ne-nil what b' ' (e ++ (newline ∷ [])))

module _ (N : Link) (clocked : IsClock N) (V : Navigator N.State) (C : Process N.State) where
  abbrev Good : M N.State Outcome → Type 0
  Good m = Yields IsProper m

  root_dir-Yields : Yields (λ _. Unit {0}) (root_dir N V C enough)
  unfolding root_dir
  root_dir-Yields = record { at = λ s. tt }

  read_input-Yields : Yields (λ _. Unit {0}) (read_input N V C enough)
  unfolding read_input
  read_input-Yields = record { at = λ s. tt }

  -- An action that comes to an end, and the outcome made of its result.
  attempt-Good :
      {A : Type 0} (m : M N.State A) (f : Try A → Outcome)
      → Finishes m
      → ((r : Try A) → IsProper (f r))
      → Good (attempt m >>= λ r. pure (f r))
  attempt-Good m f k p =
      Yields-bind (attempt m) _ (Yields-attempt m k) (λ r _. Yields-pure (f r) (p r))

  die-Good : (t : Text) → Good (pure (die t))
  die-Good t = Yields-pure (die t) (die-IsProper t)

  serve_mcp-Good : (root : FilePath) → Good (serve_mcp N V C enough root)
  unfolding serve_mcp
  serve_mcp-Good root = Yields-bind _ _ read_input-Yields (λ r _.
      Yields-bind _ _ (serve_lines-Yields N clocked V root r.0)
        (λ rs _. Yields-pure _ (ended-IsProper (text "mcp:") (replied rs) r.1)))

  find_where-Good : (root : FilePath) (args : List Text) → Good (find_where N V C enough root args)
  unfolding find_where
  find_where-Good root [] = die-Good (text "usage: gdbg where <name>")
  find_where-Good root (name ∷ []) =
      attempt-Good _ finish (where_-Finishes V root name) finish-IsProper
  find_where-Good root (name ∷ a ∷ args) = die-Good (text "usage: gdbg where <name>")

  at_place-Good :
      (root : FilePath) (cmd file : Text) (line col : Try ℤ)
      → Good (at_place N V C enough root cmd file line col)
  unfolding at_place
  at_place-Good root cmd file (value line) (value col) =
      attempt-Good _ finish (gopls-Finishes V root (verb_of cmd) file line col) finish-IsProper
  at_place-Good root cmd file (value line) (error e) =
      die-Good (text "line and col must be numbers")
  at_place-Good root cmd file (error e) col = die-Good (text "line and col must be numbers")

  navigate-Good :
      (root : FilePath) (cmd : Text) (args : List Text) → Good (navigate N V C enough root cmd args)
  unfolding navigate
  navigate-Good root cmd [] = die-Good (text "usage: gdbg " ++ (cmd ++ text " <file> <line> <col>"))
  navigate-Good root cmd (file ∷ []) =
      die-Good (text "usage: gdbg " ++ (cmd ++ text " <file> <line> <col>"))
  navigate-Good root cmd (file ∷ line ∷ []) =
      die-Good (text "usage: gdbg " ++ (cmd ++ text " <file> <line> <col>"))
  navigate-Good root cmd (file ∷ line ∷ col ∷ []) =
      at_place-Good root cmd file (atoi C.printable line) (atoi C.printable col)
  navigate-Good root cmd (file ∷ line ∷ col ∷ a ∷ args) =
      die-Good (text "usage: gdbg " ++ (cmd ++ text " <file> <line> <col>"))

  carry_out-Good :
      (c : Subcommand) (root : FilePath) (cmd : Text) (args : List Text)
      → serves c ≡ false
      → Good (carry_out N V C enough c root cmd args)
  unfolding carry_out
  carry_out-Good help root cmd args h = Yields-pure _ (inl (refl, refl))
  carry_out-Good daemon root cmd args h = cc
  carry_out-Good mcp root cmd args h = serve_mcp-Good root
  carry_out-Good where_is root cmd args h = find_where-Good root args
  carry_out-Good ask_gopls root cmd args h = navigate-Good root cmd args
  carry_out-Good down root cmd args h =
      attempt-Good _ sent_if_running (send_if_running-Finishes N root _) sent_if_running-IsProper
  carry_out-Good forwarded root cmd args h =
      attempt-Good _ sent (send-Finishes N clocked root _) sent-IsProper

  main-Good : (words : List Text) → becomes_daemon words ≡ false → Good (main N V C enough words)
  unfolding main
  main-Good [] h = Yields-pure _ (inl (refl, refl))
  main-Good (cmd ∷ words) h =
      Yields-bind _ _ root_dir-Yields (λ root _. carry_out-Good (command_of cmd) root cmd words h)

  -- On a clock that does not go back and with sleeps that take their time, the program comes to an end on
  -- every command line but one that makes it the daemon, with the exit code 0 and nothing on the error
  -- stream or with the exit code 1 and a message there.
  pub main-IsProper :
      (args : List Text) (s : N.State)
      → becomes_daemon args ≡ false
      → Holds IsProper (main N V C enough args s).0
  main-IsProper args s h = (main-Good args h).at s
