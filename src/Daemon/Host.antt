-- ===== src/Daemon/Host.antt =====
-- internal/daemon/daemon.go: the daemon's own state, and a session's methods run inside it.
use golang_debugger_skill.Base.{
  Bool, true, false, ◌&&◌, if◌then◌else◌, Option, none, some, List, [], ◌∷◌, ◌++◌, Text, negsuc,
  pos, Res, M, Try, value, error, ok, err, panicked,
}
use golang_debugger_skill.Dlv.Client.{Outside}
use golang_debugger_skill.Dlv.Proc.{fresh}
use golang_debugger_skill.Daemon.Args.Modes.{Mode, mode_name}
use golang_debugger_skill.Daemon.State.{Session, World, Io}

-- A line of the usage log. The duration is not kept.
pub record UsageRecord : Type 0 where
  pub ts : Text
  pub cmd : Text
  pub args : List Text
  pub ok : Bool

-- `Daemon`, with the records that it has added to its usage log, and whether the log's file is open.
pub record Host (X : Outside) : Type 0 where
  pub sess : Option Session
  pub req_env : List Text
  pub log_open : Bool
  pub log : List UsageRecord
  pub outside : X.State

abbrev pub succeeded : {A : Type 0} → Try A → Bool
succeeded (value a) = true
succeeded (error e) = false

module _ (X : Outside) where
  abbrev pub Act : Type 0 → Type 0
  Act A = M (Host X) A

  abbrev pub put_back : {A : Type 0} → Host X → Res A × World X → Res A × Host X
  put_back h (r, w) = (r, record h { sess = some w.session; outside = w.outside })

  abbrev pub run_on : {A : Type 0} → Option Session → Io X A → Act A
  run_on none m h = (panicked, h)
  run_on (some s) m h = put_back h (m (record { session = s; outside = h.outside }))

  -- A method of the current session. There is one wherever the daemon calls this.
  unfoldable pub in_session : {A : Type 0} → Io X A → Act A
  in_session m h = run_on h.sess m h

  unfoldable pub the_session : Act (Option Session)
  the_session h = (ok h.sess, h)

  abbrev closed : Option Session → X.State → X.State
  closed none o = o
  closed (some s) o = X.close o

  -- `stopSession`
  unfoldable pub stop_session : Act (Unit {0})
  stop_session h = (ok tt, record h { sess = none; outside = closed h.sess h.outside })

  abbrev pub new_session : Mode → Text → List Text → Session
  new_session mode target target_args = record {
    mode = mode;
    target = target;
    target_args = target_args;
    sel_g = negsuc 0;
    sel_frame = pos 0;
    watch_exprs = [];
    logpoints = [];
    last_locals = [];
    exited = false;
    proc = fresh;
  }

  abbrev pub installed : Session → Host X → Try (Unit {0}) × X.State → Res (Unit {0}) × Host X
  installed s h (value u, o) = (ok tt, record h { sess = some s; outside = o })
  installed s h (error e, o) = (err e, record h { outside = o })

  -- `newSession` and `setSession`
  unfoldable pub start_session :
      (root : Text) → Mode → (target build_flags : Text) → List Text → Act (Unit {0})
  unfolding mode_name
  start_session root mode target build_flags target_args h =
      installed (new_session mode target target_args) h
        (X.spawn root (mode_name mode) target build_flags target_args h.req_env h.outside)

  -- `usage.record`: nothing without an open file, and a write that fails is passed over
  unfoldable pub log_usage : (start cmd : Text) → List Text → Bool → Act (Unit {0})
  log_usage start cmd args success h =
      let rec : UsageRecord = record { ts = start; cmd = cmd; args = args; ok = success } in
      (
        ok tt,
        record h {
          log = if h.log_open && X.writes_log h.outside then h.log ++ (rec ∷ []) else h.log;
        },
      )

  -- `time.Now()`
  unfoldable pub now : Act Text
  now h = (ok (X.timestamp h.outside), h)

  unfoldable pub usage_log : Act (List UsageRecord)
  usage_log h = (ok h.log, h)

  unfoldable pub set_env : List Text → Act (Unit {0})
  set_env env h = (ok tt, record h { req_env = env })
