-- ===== src/Cli/Quiet.antt =====
-- The commands that start no daemon.
use golang_debugger_skill.Base.{ℕ, Preserves, preserves_rules, ◌≡◌, List, ◌∷◌, Text}
use golang_debugger_skill.Client.Root.{FilePath}
use golang_debugger_skill.Client.Link.{Link}
use golang_debugger_skill.Client.Send.Running.{IsTransparent, send_if_running-Preserves}
use golang_debugger_skill.Nav.Where.{Navigator}
use golang_debugger_skill.Cli.{down, command_of, Process, root_dir, carry_out, main}

module _ (N : Link) (V : Navigator N.State) (C : Process N.State) {Q : N.State → Type 0}
    (transparent : IsTransparent N Q) where
  root_dir-Preserves : (rounds : ℕ) → Preserves Q (root_dir N V C rounds)
  unfolding root_dir
  root_dir-Preserves rounds = record { at = λ s h. h }

  down-Preserves :
      (rounds : ℕ) (root : FilePath) (cmd : Text) (args : List Text)
      → Preserves Q (carry_out N V C rounds down root cmd args)
  unfolding carry_out
  down-Preserves rounds root cmd args =
      search (preserves_rules, send_if_running-Preserves N transparent) depth 6

  -- For a first word that is `stop` or `down`, what connecting to the socket, sending and reading keep,
  -- such as which processes run, the whole program keeps: it starts no daemon.
  pub main-down :
      (rounds : ℕ) (cmd : Text) (args : List Text)
      → command_of cmd ≡ down
      → Preserves Q (main N V C rounds (cmd ∷ args))
  unfolding main
  main-down rounds cmd args h =
      rw h (search (preserves_rules, root_dir-Preserves, down-Preserves) depth 4)
