-- ===== src/Daemon/Serve.antt =====
-- `handle`, `response` and the accept loop of `Run`, with the messages of internal/proto/proto.go.
pub mod Laws
pub mod Closing
use golang_debugger_skill.Base.{
  ℕ, Bool, true, false, Option, none, some, List, [], ◌∷◌, ◌++◌, Text, text, text_eq, if◌then◌else◌,
  Res, ok, err, panicked, pending, Try, value, error, pure, attempt, ◌>>=◌, ◌>>◌,
}
use golang_debugger_skill.Dlv.Client.{Outside}
use golang_debugger_skill.Daemon.State.{Session}
use golang_debugger_skill.Daemon.Commands.Run.{cmd_pause}
use golang_debugger_skill.Daemon.Host.{
  Host, Act, in_session, the_session, stop_session, log_usage, now, set_env, succeeded,
}
use golang_debugger_skill.Daemon.Dispatch.{dispatch}

pub record Request : Type 0 where
  pub argv : List Text
  pub env : List Text

pub record Response : Type 0 where
  pub content : Text
  pub is_error : Bool
  pub shutdown : Bool

abbrev pub response : Try Text → Response
response (value t) = record { content = t; is_error = false; shutdown = false }
response (error e) = record { content = text "error: " ++ e; is_error = true; shutdown = false }

-- `len(req.Argv) > 0 && req.Argv[0] == name`
unfoldable pub is_command : Text → List Text → Bool
unfolding text_eq
is_command name [] = false
is_command name (cmd ∷ args) = text_eq cmd name

-- The answer, if one is written, and whether the daemon ends.
pub record Handled : Type 0 where
  pub reply : Option Response
  pub ends : Bool

abbrev answered : Response → Handled
answered r = record { reply = some r; ends = false }

module _ (X : Outside) (fuel depth : ℕ) (root : Text) where
  shut_down : Act X Handled
  unfolding log_usage now stop_session text
  shut_down = do
    start ← now X
    log_usage X start (text "down") [] true
    stop_session X
    pure (record {
      reply = some (record { content = text "daemon stopped"; is_error = false; shutdown = true });
      ends = true;
    })

  pause_session : Text → Option Session → Act X Handled
  unfolding log_usage cmd_pause in_session text
  pause_session start none = do
    log_usage X start (text "pause") [] false
    pure
        (answered (record { content = text "no debug session"; is_error = true; shutdown = false }))
  pause_session start (some s) = do
    r ← attempt (in_session X (cmd_pause X))
    log_usage X start (text "pause") [] (succeeded r)
    pure (answered (response r))

  run_request : Request → Act X Handled
  unfolding set_env dispatch text
  run_request req = do
    set_env X req.env
    r ← attempt (dispatch X fuel depth root req.argv)
    pure (answered (response r))

  -- `none` is a request that cannot be decoded.
  unfoldable pub handle : Option Request → Act X Handled
  unfolding shut_down pause_session run_request is_command the_session now text
  handle none = pure (record { reply = none; ends = false })
  handle (some req) =
      if is_command (text "down") req.argv
      then shut_down
      else if is_command (text "pause") req.argv
      then (do start ← now X; s ← the_session X; pause_session start s)
      else run_request req

  -- `Run` accepts the next connection when `handle` has returned.
  unfoldable pub serve : List (Option Request) → Act X (List (Option Response))
  unfolding handle
  serve [] = pure []
  serve (req ∷ reqs) = do
    h ← handle req
    more ← if h.ends then pure [] else serve reqs
    pure (h.reply ∷ more)
