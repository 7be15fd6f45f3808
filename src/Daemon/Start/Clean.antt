-- ===== src/Daemon/Start/Clean.antt =====
-- A start that fails leaves no process behind.
use golang_debugger_skill.Base.{
  Option, List, Text, Try, value, error, Res, ok, err, panicked, pending, M, pure, fail, caught,
  attempt, and_then, ◌>>=◌,
}
use golang_debugger_skill.Dlv.Spawn.{Reader, Launcher, spawn}
use golang_debugger_skill.Dlv.Spawn.Clean.{IsFreeing, FreeIfError, spawn-FreeIfError}
use golang_debugger_skill.Dlv.Dial.{Dialer, dial}
use golang_debugger_skill.Daemon.Start.{arrived, kill, dialled, start_debugger}

module _ {S : Type 0} (L : Launcher S) (D : Dialer S) (Free : S → Type 0)
    (freeing : IsFreeing L Free) where
  dialled-FreeIfError :
      (r : Reader) (c : Try (Unit {0})) (s : S) → FreeIfError Free (dialled L D r c s)
  unfolding dialled kill arrived ◌>>=◌ pure fail
  dialled-FreeIfError r (value u) s = tt
  dialled-FreeIfError r (error e) s = freeing.kills _

  then-FreeIfError :
      {A B : Type 0} (r : Res A × S) (f : A → M S B)
      → FreeIfError Free r
      → ((a : A) (s : S) → FreeIfError Free (f a s))
      → FreeIfError Free (and_then r f)
  then-FreeIfError (ok a, s) f h k = k a s
  then-FreeIfError (err e, s) f h k = h
  then-FreeIfError (panicked, s) f h k = tt
  then-FreeIfError (pending, s) f h k = tt

  caught-FreeIfError : {A : Type 0} (r : Res A × S) → FreeIfError Free (caught r)
  caught-FreeIfError (ok a, s) = tt
  caught-FreeIfError (err e, s) = tt
  caught-FreeIfError (panicked, s) = tt
  caught-FreeIfError (pending, s) = tt

  -- Where a kill, the wait for an ended process and a start that does not succeed leave no process of
  -- dlv, a start of the debugger that returns an error leaves none: not when dlv is not found, does not
  -- start, ends early or is late, and not when the connection to it fails.
  pub start_debugger-FreeIfError :
      (root mode target flags : Text) (args : List Text) (env : Option (List Text)) (s : S)
      → Free s
      → FreeIfError Free (start_debugger L D root mode target flags args env s)
  unfolding start_debugger attempt ◌>>=◌
  start_debugger-FreeIfError root mode target flags args env s h =
      then-FreeIfError (spawn L root mode target flags args env s) _
        (spawn-FreeIfError L Free freeing root mode target flags args env s h)
        (λ p t.
          then-FreeIfError (caught (dial D p.0 t)) (dialled L D p.1) (caught-FreeIfError _)
            (dialled-FreeIfError p.1))
