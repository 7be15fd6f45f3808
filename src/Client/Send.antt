-- ===== src/Client/Send.antt =====
-- `Send`, `SendIfRunning`, `dialRetry` and `spawnDaemon`.
pub mod Running
pub mod Retry
use golang_debugger_skill.Base.{
  ℕ, zero, suc, ◌+◌, Bool, true, false, List, [], ◌∷◌, ◌++◌, Text, text, ltb, if◌then◌else◌, Res, M,
  Try, value, error, ok, pure, fail, exhausted, ask, attempt, returned, ◌>>=◌, ◌>>◌,
}
use golang_debugger_skill.Client.Root.{FilePath, state_dir, log_path, show_path}
use golang_debugger_skill.Client.Link.{Link}
use golang_debugger_skill.Daemon.Serve.{Request, Response}

module _ (N : Link) where
  abbrev pub Task : Type 0 → Type 0
  Task A = M N.State A

  -- `time.Now()`, and a call with no result
  unfoldable pub clock : Task ℕ
  clock s = (ok (N.now s), s)

  unfoldable pub run_op : (N.State → N.State) → Task (Unit {0})
  run_op op s = (ok tt, op s)

  unfoldable pub environment : Task (List Text)
  environment s = (ok (N.environ s), s)

  after_dial : Task (Unit {0}) → ℕ → Try (Unit {0}) → Task (Unit {0})
  unfolding clock
  after_dial again deadline (value u) = pure u
  after_dial again deadline (error e) = do t ← clock; if ltb deadline t then fail e else again

  wait : Task (Unit {0})
  unfolding run_op
  wait = run_op (N.sleep 100)

  -- The loop of `dialRetry`. `Retry` shows how many rounds are enough.
  unfoldable pub dial_until : (rounds deadline : ℕ) → FilePath → Task (Unit {0})
  unfolding after_dial wait
  dial_until zero deadline root = exhausted
  dial_until (suc rounds) deadline root = do
    r ← attempt (ask (N.dial root))
    after_dial (do wait; dial_until rounds deadline root) deadline r

  -- Five seconds in milliseconds.
  abbrev patience : ℕ
  patience = 5000

  unfoldable pub dial_retry : (rounds : ℕ) → FilePath → (max : ℕ) → Task (Unit {0})
  unfolding dial_until clock
  dial_retry rounds root max = do start ← clock; dial_until rounds (start + max) root

  unfoldable pub spawn_daemon : FilePath → Task (Unit {0})
  unfolding run_op state_dir log_path show_path text
  spawn_daemon root = do
    self ← ask N.executable
    ask (N.make_dirs (state_dir root))
    run_op (N.remove_socket root)
    ask (N.open_log (log_path root))
    ask (N.start_process self (text "__daemon" ∷ show_path root ∷ []) root)

  abbrev pub lost : Try Response → Task Response
  lost (value r) = pure r
  lost (error e) = fail (text "daemon connection lost: " ++ e)

  abbrev not_started : FilePath → Try (Unit {0}) → Task (Unit {0})
  not_started root (value u) = pure u
  not_started root (error e) =
      fail (text "daemon did not start (see " ++ (show_path (log_path root) ++ (text "): " ++ e)))

  start_daemon : (rounds : ℕ) → FilePath → Task (Unit {0})
  unfolding spawn_daemon dial_retry show_path log_path text
  start_daemon rounds root = do
    spawn_daemon root
    r ← attempt (dial_retry rounds root patience)
    not_started root r

  -- A connection, to a daemon started for it if need be.
  connect : (rounds : ℕ) → FilePath → Try (Unit {0}) → Task (Unit {0})
  unfolding start_daemon
  connect rounds root (value u) = pure u
  connect rounds root (error e) = start_daemon rounds root

  unfoldable pub send : (rounds : ℕ) → FilePath → List Text → Task Response
  unfolding connect environment text
  send rounds root argv = do
    r ← attempt (ask (N.dial root))
    connect rounds root r
    env ← environment
    ask (N.send_request (record { argv = argv; env = env }))
    answer ← attempt (ask N.read_response)
    lost answer

  abbrev running : Try (Unit {0}) → Task (Unit {0})
  running (value u) = pure u
  running (error e) = fail (text "no daemon running")

  unfoldable pub send_if_running : FilePath → List Text → Task Response
  unfolding text
  send_if_running root argv = do
    r ← attempt (ask (N.dial root))
    running r
    ask (N.send_request (record { argv = argv; env = [] }))
    ask N.read_response
