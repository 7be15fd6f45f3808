-- ===== src/Client/Send/Running.antt =====
-- What `SendIfRunning` can change.
use golang_debugger_skill.Base.{
  List, Text, Try, value, error, Finishes, finishes_rules, Preserves, Preserves-ask,
  preserves_rules, ask,
}
use golang_debugger_skill.Client.Root.{FilePath}
use golang_debugger_skill.Client.Link.{Link}
use golang_debugger_skill.Client.Send.{running, send_if_running}
use golang_debugger_skill.Daemon.Serve.{Request}

-- What connecting to a socket, sending and reading keep: which processes run, or what the files hold.
pub record IsTransparent (N : Link) (Q : N.State → Type 0) : Type 0 where
  pub dials : (root : FilePath) (s : N.State) → Q s → Q (N.dial root s).1
  pub sends : (req : Request) (s : N.State) → Q s → Q (N.send_request req s).1
  pub reads : (s : N.State) → Q s → Q (N.read_response s).1

module _ (N : Link) {Q : N.State → Type 0} (transparent : IsTransparent N Q) where
  running-Preserves : (r : Try (Unit {0})) → Preserves Q (running N r)
  running-Preserves (value u) = search preserves_rules
  running-Preserves (error e) = search preserves_rules

  dial-Preserves : (root : FilePath) → Preserves Q (ask (N.dial root))
  dial-Preserves root = Preserves-ask _ (transparent.dials root)

  send_request-Preserves : (req : Request) → Preserves Q (ask (N.send_request req))
  send_request-Preserves req = Preserves-ask _ (transparent.sends req)

  read_response-Preserves : Preserves Q (ask N.read_response)
  read_response-Preserves = Preserves-ask _ transparent.reads

  -- `SendIfRunning` starts nothing: what connecting, sending and reading keep, it keeps.
  pub send_if_running-Preserves :
      (root : FilePath) (argv : List Text) → Preserves Q (send_if_running N root argv)
  unfolding send_if_running
  send_if_running-Preserves root argv =
      search
        (
          preserves_rules, running-Preserves, dial-Preserves, send_request-Preserves,
          read_response-Preserves,
        )
        depth 9

module _ (N : Link) where
  running-Finishes : (r : Try (Unit {0})) → Finishes (running N r)
  running-Finishes (value u) = search finishes_rules
  running-Finishes (error e) = search finishes_rules

  pub send_if_running-Finishes :
      (root : FilePath) (argv : List Text) → Finishes (send_if_running N root argv)
  unfolding send_if_running
  send_if_running-Finishes root argv = search (finishes_rules, running-Finishes) depth 9
