-- ===== src/Daemon/Dispatch/Logged.antt =====
-- What the usage log has of a command.
use golang_debugger_skill.Base.{
  ◌≡◌, refl, ℕ, suc, Bool, true, false, List, [], ◌∷◌, ◌++◌, Text, Res, ok, err, panicked, pending,
  ◌>>=◌, attempt, returned, caught, and_then, ◌&&◌,
}
use golang_debugger_skill.Dlv.Client.{Outside}
use golang_debugger_skill.Daemon.Host.{Host, UsageRecord, now, log_usage, succeeded}
use golang_debugger_skill.Daemon.Dispatch.{name_of, execute, dispatch}

-- The last record of the log is of this command, with this outcome.
abbrev pub IsLogged : List UsageRecord → Text → List Text → Bool → Type 0
IsLogged log cmd args success =
    (before : List UsageRecord) × (ts : Text) × (log
      ≡ before ++ (record { ts = ts; cmd = cmd; args = args; ok = success } ∷ []))

-- The log's file is open, and a write to it succeeds.
abbrev pub can_log : {X : Outside} → Host X → Bool
can_log {X = X} h = h.log_open && X.writes_log h.outside

module _ (X : Outside) (cmd : Text) (args : List Text) where
  abbrev pub LogsOutcome : Res Text × Host X → Type 0
  LogsOutcome (ok t, h) = IsLogged h.log cmd args true
  LogsOutcome (err e, h) = IsLogged h.log cmd args false
  LogsOutcome (panicked, h) = Unit {0}
  LogsOutcome (pending, h) = Unit {0}

  logged_run : (start : Text) (r : Res Text × Host X) → Res Text × Host X
  unfolding log_usage
  logged_run start r =
      and_then (caught r) (λ t. log_usage X start cmd args (succeeded t) >>= λ _. returned t)

  logged :
      (start : Text) (r : Res Text × Host X)
      → can_log (logged_run start r).1 ≡ true
      → LogsOutcome (logged_run start r)
  unfolding logged_run log_usage ◌>>=◌ returned
  logged start (ok t, h) c = rw c (h.log, start, refl)
  logged start (err e, h) c = rw c (h.log, start, refl)
  logged start (panicked, h) c = tt
  logged start (pending, h) c = tt

-- Where a command answers or ends in an error, while the log's file is open and can be written to, the
-- last record of the usage log is of that command with its arguments, and says which of the two it was.
pub dispatch-IsLogged :
    (X : Outside) (fuel depth : ℕ) (root cmd : Text) (args : List Text) (h : Host X)
    → can_log (dispatch X fuel (suc depth) root (cmd ∷ args) h).1 ≡ true
    → LogsOutcome X cmd args (dispatch X fuel (suc depth) root (cmd ∷ args) h)
unfolding dispatch ◌>>=◌ attempt now logged_run
dispatch-IsLogged X fuel depth root cmd args h =
    logged X cmd args (X.timestamp h.outside)
      (execute X fuel (dispatch X fuel depth root) root (name_of cmd) cmd args h)
