-- ===== src/Daemon/Serve/Closing.antt =====
-- The session is closed before the daemon ends.
use golang_debugger_skill.Base.{
  ℕ, ◌≡◌, refl, Bool, true, false, Option, none, some, Text, if◌then◌else◌, Res, ok, err, panicked,
  pending, pure, and_then, ◌>>=◌,
}
use golang_debugger_skill.Dlv.Client.{Outside}
use golang_debugger_skill.Daemon.State.{Session}
use golang_debugger_skill.Daemon.Host.{Host, Act, now, log_usage, stop_session}
use golang_debugger_skill.Daemon.Serve.{
  Request, Response, Handled, answered, shut_down, pause_session, run_request, handle,
}

-- If the end is asked for, no session is left.
abbrev pub Closed : (X : Outside) → Res Handled × Host X → Type 0
Closed X (ok r, h) = r.ends ≡ true → h.sess ≡ none
Closed X _ = Unit {0}

module _ (X : Outside) where
  record Closing (m : Act X Handled) : Type 0 where
    at : (h : Host X) → Closed X (m h)

  Closing-answered : (r : Response) → Closing (pure (answered r))
  unfolding pure
  Closing-answered r = record { at = λ h e. cc }

  Closing-if :
      (b : Bool) (m n : Act X Handled) → Closing m → Closing n → Closing (if b then m else n)
  Closing-if true m n k l = k
  Closing-if false m n k l = l

module _ (X : Outside) {A : Type 0} where
  then-Closed :
      (r : Res A × Host X) (f : A → Act X Handled)
      → ((a : A) → Closing X (f a))
      → Closed X (and_then r f)
  then-Closed (ok a, h) f k = (k a).at h
  then-Closed (err e, h) f k = tt
  then-Closed (panicked, h) f k = tt
  then-Closed (pending, h) f k = tt

  Closing-bind :
      (m : Act X A) (f : A → Act X Handled) → ((a : A) → Closing X (f a)) → Closing X (m >>= f)
  unfolding ◌>>=◌
  Closing-bind m f k = record { at = λ h. then-Closed (m h) f k }

ruleset closing_rules = (Closing-answered, Closing-if, Closing-bind)

module _ (X : Outside) (fuel depth : ℕ) (root : Text) where
  shut_down-Closing : Closing X (shut_down X fuel depth root)
  unfolding shut_down now log_usage stop_session ◌>>=◌ pure
  shut_down-Closing = record { at = λ h e. refl }

  pause_session-Closing :
      (start : Text) (s : Option Session) → Closing X (pause_session X fuel depth root start s)
  unfolding pause_session
  pause_session-Closing start none = search closing_rules
  pause_session-Closing start (some s) = search closing_rules

  run_request-Closing : (req : Request) → Closing X (run_request X fuel depth root req)
  unfolding run_request
  run_request-Closing req = search closing_rules

  handle-Closing : (req : Option Request) → Closing X (handle X fuel depth root req)
  unfolding handle pure
  handle-Closing none = record { at = λ h e. cc }
  handle-Closing (some req) =
      search (closing_rules, shut_down-Closing, pause_session-Closing, run_request-Closing) depth 8

  pub handle-Closed :
      (req : Option Request) (h : Host X) → Closed X (handle X fuel depth root req h)
  handle-Closed req h = (handle-Closing req).at h
