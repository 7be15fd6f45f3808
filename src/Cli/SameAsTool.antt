-- ===== src/Cli/SameAsTool.antt =====
-- A tool of the MCP server beside the command that it builds.
use golang_debugger_skill.Base.{
  ℕ, ◌≡◌, ◌⊎◌, inl, inr, refl, Bool, true, false, List, ◌∷◌, Text, if◌then◌else◌, Res, ok, err,
  panicked, pending, M, pure, fail, caught, and_then, attempt, ◌>>=◌,
}
use golang_debugger_skill.Client.Root.{FilePath, project_root}
use golang_debugger_skill.Client.Link.{Link}
use golang_debugger_skill.Client.Send.{send}
use golang_debugger_skill.Daemon.Serve.{Response}
use golang_debugger_skill.Nav.Where.{Navigator}
use golang_debugger_skill.Mcp.Json.{Members}
use golang_debugger_skill.Mcp.Schema.{forward}
use golang_debugger_skill.Mcp.Serve.{run_tool, as_result}
use golang_debugger_skill.Cli.{
  Outcome, says, fails, die, sent, forwarded, command_of, Process, root_dir, carry_out, main,
}

-- The same text, as a tool's result and as what the program prints: on the output for a success, on the
-- error stream with exit code 1 for an error. The states after it are the same too.
module _ {S : Type 0} where
  abbrev pub Tells : Res Text × S → Res Outcome × S → Type 0
  Tells (ok t, s) (ok o, s') = (o ≡ says t) × (s ≡ s')
  Tells (err e, s) (ok o, s') = ((o ≡ fails e) ⊎ (o ≡ die e)) × (s ≡ s')
  Tells (panicked, s) (panicked, s') = s ≡ s'
  Tells (pending, s) (pending, s') = s ≡ s'
  Tells _ _ = ⊥

module _ (N : Link) (V : Navigator N.State) (C : Process N.State) (rounds : ℕ) where
  -- The directory that the program works for.
  abbrev pub project : N.State → FilePath
  project s = project_root (C.exists s) (C.working_dir s) C.here

  by_answer :
      (root : FilePath) (r : Res Response × N.State)
      → Tells (and_then r (as_result N V rounds root)) (and_then (caught r) (λ a. pure (sent a)))
  unfolding as_result fail pure die
  by_answer root (ok resp, s) = by_is_error resp.is_error
    where
      by_is_error :
          (b : Bool)
          → Tells
              (let m : M N.State Text = if b then fail resp.content else pure resp.content in m s)
              (ok (if b then fails resp.content else says resp.content), s)
      by_is_error true = (inl refl, refl)
      by_is_error false = (refl, refl)
  by_answer root (err e, s) = (inr refl, refl)
  by_answer root (panicked, s) = refl
  by_answer root (pending, s) = refl

  -- A tool whose vector begins with a command that the program forwards does what that command line
  -- does, from the same directory and in the same state: both end alike, with the same text and in the
  -- same state.
  pub run_tool-main :
      (build : Members → List Text) (a : Members) (cmd : Text) (args : List Text) (s : N.State)
      → build a ≡ cmd ∷ args
      → command_of cmd ≡ forwarded
      → Tells
          (run_tool N V rounds (project s) (forward build) a s)
          (main N V C rounds (cmd ∷ args) s)
  unfolding run_tool main root_dir carry_out ◌>>=◌ attempt
  run_tool-main build a cmd args s b c =
      rw (b, c) (by_answer (project s) (send N rounds (project s) (cmd ∷ args) s))
