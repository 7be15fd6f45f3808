-- ===== src/Client/Send/Retry.antt =====
-- `dialRetry` comes to an end, and so does `Send`.
use golang_debugger_skill.Base.{
  Finishes, IsReturn, finishes_rules, ℕ, zero, suc, ◌+◌, ◌*◌, ◌≤◌, ◌<◌, ◌≡◌, ◌≢◌, refl, Bool, true,
  false, List, Text, ltb, lt→ltb, if◌then◌else◌, arith, M, Try, value, error, pure, fail, caught,
  and_then, answer, ask, attempt, ◌>>=◌,
}
use golang_debugger_skill.Client.Root.{FilePath}
use golang_debugger_skill.Client.Link.{Link}
use golang_debugger_skill.Daemon.Serve.{Response}
use golang_debugger_skill.Client.Send.{
  clock, run_op, after_dial, wait, dial_until, dial_retry, spawn_daemon, not_started, start_daemon,
  connect, environment, patience, send, lost,
}

-- The clock does not go back while a connection is tried, and a sleep takes its time.
pub record IsClock (N : Link) : Type 0 where
  pub dial_forward : (root : FilePath) (s : N.State) → N.now s ≤ N.now (N.dial root s).1
  pub sleep_forward : (n : ℕ) (s : N.State) → N.now s + n ≤ N.now (N.sleep n s)

-- The tries to connect: the fifty-first of the pauses between two tries is past the five seconds.
abbrev pub enough : ℕ
enough = 52

not_early : (a b : ℕ) → a < b → ltb a b ≢ false
not_early a b h e = cc (lt→ltb a b h)

module _ (N : Link) (clocked : IsClock N) where
  -- The rest of a round, after the try to connect.
  after_dial-ends :
      (again : M N.State (Unit {0})) (deadline : ℕ) (r : Try (Unit {0})) (s : N.State)
      → (ltb deadline (N.now s) ≡ false → IsReturn (again s).0)
      → IsReturn (after_dial N again deadline r s).0
  unfolding after_dial clock ◌>>=◌ pure fail
  after_dial-ends again deadline (value u) s h = tt
  after_dial-ends again deadline (error e) s h = by_time (ltb deadline (N.now s)) h
    where
      by_time :
          (late : Bool)
          → (late ≡ false → IsReturn (again s).0)
          → (let next : M N.State (Unit {0}) = if late then fail e else again in
              IsReturn (next s).0)
      by_time true k = tt
      by_time false k = k refl

  dial_until-ends :
      (k deadline : ℕ) (root : FilePath) (s : N.State)
      → deadline < N.now s + 100 * k
      → IsReturn (dial_until N (suc k) deadline root s).0
  unfolding dial_until wait run_op ◌>>=◌ attempt ask
  dial_until-ends zero deadline root s h = by_reply (N.dial root s) (clocked.dial_forward root s)
    where
      again : M N.State (Unit {0})
      again = wait N >>= λ _. dial_until N zero deadline root

      by_reply :
          (r : Try (Unit {0}) × N.State)
          → N.now s ≤ N.now r.1
          → IsReturn (and_then (caught (answer r)) (after_dial N again deadline)).0
      by_reply (value u, t) le =
          after_dial-ends again deadline (value u) t
            (λ e. absurd (not_early deadline (N.now t) (omega arith) e))
      by_reply (error m, t) le =
          after_dial-ends again deadline (error m) t
            (λ e. absurd (not_early deadline (N.now t) (omega arith) e))
  dial_until-ends (suc k) deadline root s h =
      by_reply (N.dial root s) (clocked.dial_forward root s) (dial_until-ends k)
    where
      again : M N.State (Unit {0})
      again = wait N >>= λ _. dial_until N (suc k) deadline root

      by_reply :
          (r : Try (Unit {0}) × N.State)
          → N.now s ≤ N.now r.1
          → ((deadline : ℕ) (root : FilePath) (t : N.State)
              → deadline < N.now t + 100 * k
              → IsReturn (dial_until N (suc k) deadline root t).0)
          → IsReturn (and_then (caught (answer r)) (after_dial N again deadline)).0
      by_reply (value u, t) le ih =
          after_dial-ends again deadline (value u) t
            (λ _. ih deadline root (N.sleep 100 t) (omega (arith, clocked.sleep_forward 100 t)))
      by_reply (error m, t) le ih =
          after_dial-ends again deadline (error m) t
            (λ _. ih deadline root (N.sleep 100 t) (omega (arith, clocked.sleep_forward 100 t)))

  dial_retry-ends :
      (k max : ℕ) (root : FilePath) (s : N.State)
      → max < 100 * k
      → IsReturn (dial_retry N (suc k) root max s).0
  unfolding dial_retry clock ◌>>=◌
  dial_retry-ends k max root s h = dial_until-ends k (N.now s + max) root s (omega arith)

  dial_retry-Finishes :
      (k max : ℕ) (root : FilePath) → max < 100 * k → Finishes (dial_retry N (suc k) root max)
  dial_retry-Finishes k max root h = record { at = λ s. dial_retry-ends k max root s h }

module _ (N : Link) where
  run_op-Finishes : (op : N.State → N.State) → Finishes (run_op N op)
  unfolding run_op
  run_op-Finishes op = record { at = λ s. tt }

  environment-Finishes : Finishes (environment N)
  unfolding environment
  environment-Finishes = record { at = λ s. tt }

  lost-Finishes : (r : Try Response) → Finishes (lost N r)
  lost-Finishes (value r) = search finishes_rules
  lost-Finishes (error e) = search finishes_rules

  not_started-Finishes : (root : FilePath) (r : Try (Unit {0})) → Finishes (not_started N root r)
  not_started-Finishes root (value u) = search finishes_rules
  not_started-Finishes root (error e) = search finishes_rules

  spawn_daemon-Finishes : (root : FilePath) → Finishes (spawn_daemon N root)
  unfolding spawn_daemon
  spawn_daemon-Finishes root = search (finishes_rules, run_op-Finishes) depth 9

module _ (N : Link) (clocked : IsClock N) where
  retry-Finishes : (root : FilePath) → Finishes (dial_retry N enough root (patience N))
  retry-Finishes root = dial_retry-Finishes N clocked 51 (patience N) root (omega arith)

  start_daemon-Finishes : (root : FilePath) → Finishes (start_daemon N enough root)
  unfolding start_daemon
  start_daemon-Finishes root =
      search (finishes_rules, spawn_daemon-Finishes, retry-Finishes, not_started-Finishes) depth 8

  connect-Finishes : (root : FilePath) (r : Try (Unit {0})) → Finishes (connect N enough root r)
  unfolding connect
  connect-Finishes root (value u) = search finishes_rules
  connect-Finishes root (error e) = start_daemon-Finishes root

  pub send-Finishes : (root : FilePath) (argv : List Text) → Finishes (send N enough root argv)
  unfolding send
  send-Finishes root argv =
      search (finishes_rules, connect-Finishes, environment-Finishes, lost-Finishes) depth 10

  -- On a clock that does not go back and with sleeps that take their time, sending a command comes to
  -- an end, also where the daemon has to be started: 52 tries to connect are enough.
  pub send-ends :
      (root : FilePath) (argv : List Text) (s : N.State) → IsReturn (send N enough root argv s).0
  send-ends root argv s = (send-Finishes root argv).at s
