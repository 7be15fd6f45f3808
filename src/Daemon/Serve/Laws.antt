-- ===== src/Daemon/Serve/Laws.antt =====
-- How a request is answered, and how the accept loop ends.
use golang_debugger_skill.Base.{
  ℕ, ◌≡◌, refl, true, false, none, some, Text, text, Res, ok, err, panicked, pending, value, error,
  ◌>>=◌, pure, attempt, caught, and_then,
}
use golang_debugger_skill.Dlv.Client.{Outside}
use golang_debugger_skill.Daemon.Host.{Host, set_env, now, log_usage, stop_session}
use golang_debugger_skill.Daemon.Serve.{
  Request, Response, response, Handled, answered, is_command, handle, run_request, shut_down,
}
use golang_debugger_skill.Daemon.Dispatch.{dispatch}

pub handle-down :
    (X : Outside) (fuel depth : ℕ) (root : Text) (req : Request) (h : Host X)
    → is_command (text "down") req.argv ≡ true
    → ((handle X fuel depth root (some req) h).0
        ≡ ok (record {
          reply =
              some (record { content = text "daemon stopped"; is_error = false; shutdown = true });
          ends = true;
        }))
      × ((handle X fuel depth root (some req) h).1.sess ≡ none)
unfolding handle shut_down ◌>>=◌ now log_usage stop_session pure text
handle-down X fuel depth root req h e = rw e (refl, refl)

-- How a dispatch ends, as its answer.
abbrev pub answer_of : {S : Type 0} → Res Text × S → Res Response × S
answer_of (ok t, s) = (ok (response (value t)), s)
answer_of (err e, s) = (ok (response (error e)), s)
answer_of (panicked, s) = (panicked, s)
answer_of (pending, s) = (pending, s)

abbrev pub as_handled : {S : Type 0} → Res Response × S → Res Handled × S
as_handled (ok r, s) = (ok (record { reply = some r; ends = false }), s)
as_handled (err e, s) = (err e, s)
as_handled (panicked, s) = (panicked, s)
as_handled (pending, s) = (pending, s)

-- Every request but `down` and `pause` is answered with the result of its dispatch, in the environment
-- that it brings.
pub handle-dispatch :
    (X : Outside) (fuel depth : ℕ) (root : Text) (req : Request) (h : Host X)
    → is_command (text "down") req.argv ≡ false
    → is_command (text "pause") req.argv ≡ false
    → handle X fuel depth root (some req) h
      ≡ as_handled
          (answer_of (dispatch X fuel depth root req.argv (record h { req_env = req.env })))
unfolding handle run_request ◌>>=◌ set_env pure attempt
handle-dispatch X fuel depth root req h d p =
    rw (d, p) (by_result (dispatch X fuel depth root req.argv (record h { req_env = req.env })))
  where
    by_result :
        (r : Res Text × Host X)
        → and_then (caught r) (λ a. pure (answered (response a))) ≡ as_handled (answer_of r)
    by_result (ok t, s) = refl
    by_result (err e, s) = refl
    by_result (panicked, s) = refl
    by_result (pending, s) = refl
