-- ===== src/Dlv/Spawn/Clean.antt =====
-- A start of dlv that fails leaves no process of it.
use golang_debugger_skill.Base.{
  ◌≡◌, refl, Bool, true, false, Option, List, Text, text, if◌then◌else◌, Try, value, error, Res,
  err, M, pure, fail, ask, answer, and_then, ◌>>=◌,
}
use golang_debugger_skill.Dlv.Spawn.{
  Reader, Launcher, spawn, started, settle_wait, found, do_op, Wait, serving, exited, late, waiting,
  await, no_output, spawn_args, Event,
}

-- When the state is free of dlv: after a kill, after the wait for a process that has ended, and where
-- it was before a process that did not start.
pub record IsFreeing {S : Type 0} (L : Launcher S) (Free : S → Type 0) : Type 0 where
  pub kills : (s : S) → Free (L.kill s)
  pub reaps : (s : S) → Free (L.reap s)
  pub starts_not :
      (args : List Text) (dir : Text) (env : Option (List Text)) (s : S) (e : Text)
      → Free s
      → (L.start args dir env s).0 ≡ error e
      → Free (L.start args dir env s).1

-- If there is an error, the state is free.
abbrev pub FreeIfError : {S A : Type 0} → (S → Type 0) → Res A × S → Type 0
FreeIfError Free (err e, s) = Free s
FreeIfError Free _ = Unit

module _ {S : Type 0} (L : Launcher S) (Free : S → Type 0) (freeing : IsFreeing L Free) where
  settle_wait-FreeIfError : (w : Wait) (s : S) → FreeIfError Free (settle_wait L w s)
  unfolding settle_wait do_op ◌>>=◌ pure fail
  settle_wait-FreeIfError (serving a r) s = tt
  settle_wait-FreeIfError (exited m) s = freeing.reaps s
  settle_wait-FreeIfError late s = freeing.kills s
  settle_wait-FreeIfError (waiting r) s = tt

  started-FreeIfError :
      (dir mode target flags : Text) (args : List Text) (env : Option (List Text)) (s : S)
      → Free s
      → FreeIfError Free (started L dir mode target flags args env s)
  unfolding started ask ◌>>=◌
  started-FreeIfError dir mode target flags args env s h =
      by_start (L.start (spawn_args mode target flags args) dir env s)
        (λ e. freeing.starts_not (spawn_args mode target flags args) dir env s e h)
    where
      by_start :
          (r : Try (List Event) × S)
          → ((e : Text) → r.0 ≡ error e → Free r.1)
          → FreeIfError Free
              (and_then (answer r) (λ events. settle_wait L (await events no_output)))
      by_start (value events, t) k = settle_wait-FreeIfError (await events no_output) t
      by_start (error e, t) k = k e refl

  pub spawn-FreeIfError :
      (dir mode target flags : Text) (args : List Text) (env : Option (List Text)) (s : S)
      → Free s
      → FreeIfError Free (spawn L dir mode target flags args env s)
  unfolding spawn found ◌>>=◌ fail
  spawn-FreeIfError dir mode target flags args env s h = by_path (L.look_path (text "dlv") s)
    where
      by_path :
          (b : Bool)
          → FreeIfError Free (
              let m : M S (Text × Reader) =
                if b
                then started L dir mode target flags args env
                else fail (
                    text
                      "dlv not found on PATH; install it with: go install github.com/go-delve/delve/cmd/dlv@latest") in
              m s)
      by_path true = started-FreeIfError dir mode target flags args env s h
      by_path false = h
