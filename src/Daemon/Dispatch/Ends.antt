-- ===== src/Daemon/Dispatch/Ends.antt =====
-- `launch` and `trace` come to an end, if a resume does.
use golang_debugger_skill.Base.{
  ℕ, ◌≢◌, refl, ℤ, Bool, true, false, Option, none, some, List, [], ◌∷◌, ◌++◌, atoi, Text, text,
  Res, ok, err, panicked, pending, Try, value, error, pure, fail, returned, attempt, ◌>>=◌, caught,
  and_then, if◌then◌else◌,
}
use golang_debugger_skill.Dlv.Types.{Breakpoint, Command}
use golang_debugger_skill.Dlv.Client.{Outside}
use golang_debugger_skill.Daemon.Args.Modes.{Mode}
use golang_debugger_skill.Daemon.State.{Session, World, Io}
use golang_debugger_skill.Daemon.Logic.Total.{Ends}
use golang_debugger_skill.Daemon.Session.Resume.{resume}
use golang_debugger_skill.Daemon.Host.{
  Host, Act, put_back, run_on, in_session, the_session, stop_session, start_session, installed,
  new_session, log_usage, now, usage_log,
}
use golang_debugger_skill.Daemon.Launch.{
  break_failed, set_break, set_breaks, only_flags, go_on, cmd_launch,
}
use golang_debugger_skill.Daemon.Trace.{number_flag, trace_breaks, trace_places, cmd_trace}
use golang_debugger_skill.Daemon.Trace.Bounds.{trace_run-Ends}
use golang_debugger_skill.Daemon.Commands.Ends.{create_breakpoint-Ends}

-- An action of the daemon that comes to an end.
pub record Returns {X : Outside} {A : Type 0} (m : Act X A) : Type 0 where
  pub at : (h : Host X) → (m h).0 ≢ pending

module _ {X : Outside} {A : Type 0} where
  pub Returns-pure : (a : A) → Returns {X = X} (pure a)
  unfolding pure
  Returns-pure a = record { at = λ h e. cc }

  pub Returns-fail : (e : Text) → Returns {X = X} (fail {A = A} e)
  unfolding fail
  Returns-fail m = record { at = λ h e. cc }

  pub Returns-returned : (r : Try A) → Returns {X = X} (returned r)
  unfolding returned
  Returns-returned (value a) = record { at = λ h e. cc }
  Returns-returned (error m) = record { at = λ h e. cc }

  pub Returns-if : (b : Bool) (m n : Act X A) → Returns m → Returns n → Returns (if b then m else n)
  Returns-if true m n rm rn = rm
  Returns-if false m n rm rn = rn

  caught-returns : (r : Res A × Host X) → r.0 ≢ pending → (caught r).0 ≢ pending
  caught-returns (ok a, h) k e = cc
  caught-returns (err m, h) k e = cc
  caught-returns (panicked, h) k e = cc
  caught-returns (pending, h) k e = k refl

  pub Returns-attempt : (m : Act X A) → Returns m → Returns (attempt m)
  unfolding attempt
  Returns-attempt m k = record { at = λ h. caught-returns (m h) (k.at h) }

  put_back-returns :
      (h : Host X) (r : Res A × World X) → r.0 ≢ pending → (put_back X h r).0 ≢ pending
  put_back-returns h (r, w) k = k

  pub Returns-in_session : (m : Io X A) → Ends X m → Returns (in_session X m)
  unfolding in_session
  Returns-in_session m k = record { at = λ h. by_session h h.sess }
    where
      by_session : (h : Host X) (o : Option Session) → (run_on X o m h).0 ≢ pending
      by_session h none = λ e. cc
      by_session h (some s) =
          put_back-returns h (m (record { session = s; outside = h.outside }))
            (k.at (record { session = s; outside = h.outside }))

module _ {X : Outside} {A B : Type 0} where
  then-Returns :
      (r : Res A × Host X) (f : A → Act X B)
      → r.0 ≢ pending
      → ((a : A) → Returns (f a))
      → (and_then r f).0 ≢ pending
  then-Returns (ok a, h) f k rf e = (rf a).at h e
  then-Returns (err m, h) f k rf e = cc
  then-Returns (panicked, h) f k rf e = cc
  then-Returns (pending, h) f k rf e = k refl

  pub Returns-bind :
      (m : Act X A) (f : A → Act X B) → Returns m → ((a : A) → Returns (f a)) → Returns (m >>= f)
  unfolding ◌>>=◌
  Returns-bind m f rm rf = record { at = λ h. then-Returns (m h) f (rm.at h) rf }

module _ {X : Outside} where
  pub Returns-the_session : Returns (the_session X)
  unfolding the_session
  Returns-the_session = record { at = λ h e. cc }

  pub Returns-stop_session : Returns (stop_session X)
  unfolding stop_session
  Returns-stop_session = record { at = λ h e. cc }

  pub Returns-log_usage :
      (start cmd : Text) (args : List Text) (success : Bool)
      → Returns (log_usage X start cmd args success)
  unfolding log_usage
  Returns-log_usage start cmd args success = record { at = λ h e. cc }

  pub Returns-now : Returns (now X)
  unfolding now
  Returns-now = record { at = λ h e. cc }

  pub Returns-usage_log : Returns (usage_log X)
  unfolding usage_log
  Returns-usage_log = record { at = λ h e. cc }

  installed-returns :
      (s : Session) (h : Host X) (r : Try (Unit {0}) × X.State) → (installed X s h r).0 ≢ pending
  installed-returns s h (value u, o) e = cc
  installed-returns s h (error m, o) e = cc

  pub Returns-start_session :
      (root : Text) (mode : Mode) (target build_flags : Text) (args : List Text)
      → Returns (start_session X root mode target build_flags args)
  unfolding start_session
  Returns-start_session root mode target build_flags args = record {
    at = λ h. installed-returns (new_session X mode target args) h _;
  }

pub ruleset returns_rules = (
  Returns-pure, Returns-fail, Returns-returned, Returns-if, Returns-attempt, Returns-in_session,
  Returns-bind, Returns-the_session, Returns-stop_session, Returns-log_usage, Returns-now,
  Returns-usage_log, Returns-start_session,
)

module _ (X : Outside) where
  break_failed-Returns :
      (what loc : Text) (r : Try Breakpoint) → Returns (break_failed X what loc r)
  break_failed-Returns what loc (value bp) = search returns_rules
  break_failed-Returns what loc (error e) = search returns_rules

  set_break-Returns : (what loc : Text) → Returns (set_break X what loc)
  unfolding set_break
  set_break-Returns what loc =
      search (returns_rules, create_breakpoint-Ends X, break_failed-Returns) depth 8

  set_breaks-Returns : (what : Text) (locs : List Text) → Returns (set_breaks X what locs)
  unfolding set_breaks
  set_breaks-Returns what [] = search returns_rules
  set_breaks-Returns what (loc ∷ locs) =
      Returns-bind _ _ (set_break-Returns what loc)
        (λ bp. Returns-bind _ _ (set_breaks-Returns what locs) (search returns_rules))

  only_flags-Returns : (words : List Text) → Returns (only_flags X words)
  unfolding only_flags
  only_flags-Returns [] = search returns_rules
  only_flags-Returns (a ∷ words) = search returns_rules

  number_flag-Returns :
      (name : Text) (default : ℤ) (s : Text) → Returns (number_flag X name default s)
  number_flag-Returns name default [] = search returns_rules
  number_flag-Returns name default (c ∷ s) = by_number (atoi X.printable (c ∷ s))
    where
      by_number :
          (r : Try ℤ)
          → Returns {X = X} {A = ℤ}
              (elim r [ value n ↦ pure n | error e ↦ fail (name ++ (text ": " ++ e)) ])
      by_number (value n) = search returns_rules
      by_number (error e) = search returns_rules

  trace_breaks-Returns : (locs : List Text) → Returns (trace_breaks X locs)
  unfolding trace_breaks
  trace_breaks-Returns [] = search returns_rules
  trace_breaks-Returns (loc ∷ locs) =
      Returns-bind _ _ (set_break-Returns (text "breakpoint ") loc)
        (λ bp. trace_breaks-Returns locs)

  trace_places-Returns : (locs : List Text) → Returns (trace_places X locs)
  unfolding trace_places
  trace_places-Returns [] = search returns_rules
  trace_places-Returns (loc ∷ locs) = search returns_rules

  pub cmd_trace-Returns : (root : Text) (args : List Text) → Returns (cmd_trace X root args)
  unfolding cmd_trace
  cmd_trace-Returns root args =
      search
        (
          returns_rules,
          number_flag-Returns,
          trace_breaks-Returns,
          trace_places-Returns,
          trace_run-Ends X,
        )
        depth 16

  module _ (fuel : ℕ) (resumes : (cmd : Command) → Ends X (resume X fuel cmd)) where
    go_on-Returns : (stay : Bool) (msgs : List Text) → Returns (go_on X fuel stay msgs)
    unfolding go_on
    go_on-Returns stay msgs = search (returns_rules, resumes) depth 8

    pub cmd_launch-Returns :
        (root : Text) (args : List Text) → Returns (cmd_launch X fuel root args)
    unfolding cmd_launch
    cmd_launch-Returns root args =
        search (returns_rules, only_flags-Returns, set_breaks-Returns, go_on-Returns) depth 16
