-- ===== src/System/Commands.antt =====
-- What a command line does to the daemon, from end to end.
use golang_debugger_skill.Base.{
  ℕ, ◌≡◌, ◌≢◌, refl, ap, true, false, Bool-cases, subst, inl, inr, none, some, List, [], ◌∷◌, ◌++◌,
  Text, text, text_eq, eq_of_text_eq, fail, Res, ok, err, panicked, pending, pure, attempt, ask,
  answer, caught, and_then, ◌>>=◌,
}
use golang_debugger_skill.Dlv.Client.{Outside}
use golang_debugger_skill.Daemon.Host.{Host}
use golang_debugger_skill.Daemon.Dispatch.{dispatch}
use golang_debugger_skill.Daemon.Serve.{Request, Response, Handled, is_command, handle}
use golang_debugger_skill.Daemon.Serve.Laws.{handle-down, handle-dispatch, answer_of, as_handled}
use golang_debugger_skill.Client.Root.{FilePath, project_root}
use golang_debugger_skill.Client.Link.{Link}
use golang_debugger_skill.Client.Send.{send, send_if_running, lost}
use golang_debugger_skill.Nav.Where.{Navigator}
use golang_debugger_skill.Cli.{
  Outcome, says, fails, die, sent, sent_if_running, forwarded, down, command_of, Process, root_dir,
  carry_out, main,
}
use golang_debugger_skill.System.{Joined, handled, received, joined}

-- What the program prints for the end of a dispatch, and the state that it leaves. A handler that panics
-- loses the connection. For one that does not return, when the program waits for ever, nothing is meant.
abbrev pub told : {X : Outside} → Joined X → Res Text × Host X → Res Outcome × Joined X
told j (ok t, h) = (ok (says t), record j { host = h; running = true; reply = none })
told j (err e, h) =
    (ok (fails (text "error: " ++ e)), record j { host = h; running = true; reply = none })
told j (panicked, h) = (
  ok (die (text "daemon connection lost: EOF")),
  record j { host = h; running = false; reply = none },
)
told j (pending, h) = (pending, record j { host = h; reply = none })

module _ (X : Outside) (fuel depth : ℕ) (root : Text) (env : List Text) where
  abbrev net : Link
  net = joined X fuel depth root env

  handled_request : Request → Joined X → Joined X
  handled_request req j =
      handled X fuel depth root env j (handle X fuel depth root (some req) j.host)

  reading : Joined X → Res Response × Joined X
  reading j = answer (received X fuel depth root env j.reply, record j { reply = none })

  send-joined :
      (rounds : ℕ) (dir : FilePath) (argv : List Text) (j : Joined X)
      → j.running ≡ true
      → send net rounds dir argv j
        ≡ and_then
            (caught (reading (handled_request (record { argv = argv; env = env }) j)))
            (lost net)
  unfolding send ◌>>=◌ ask attempt pure reading handled_request
  send-joined rounds dir argv j h = rw h refl

  send_if_running-joined :
      (dir : FilePath) (argv : List Text) (j : Joined X)
      → j.running ≡ true
      → send_if_running net dir argv j
        ≡ reading (handled_request (record { argv = argv; env = [] }) j)
  unfolding send_if_running ◌>>=◌ ask attempt pure reading handled_request
  send_if_running-joined dir argv j h = rw h refl

  -- What `main` makes of the answer.
  answered_main :
      (j : Joined X) (r : Res Text × Host X)
      → r.0 ≢ pending
      → and_then
          (caught (
            and_then
              (caught (reading (handled X fuel depth root env j (as_handled (answer_of r)))))
              (lost net)))
          (λ a. pure (sent a))
        ≡ told j r
  unfolding pure reading fail die
  answered_main j (ok t, h) returns = refl
  answered_main j (err e, h) returns = refl
  answered_main j (panicked, h) returns = refl
  answered_main j (pending, h) returns = absurd (returns refl)

  -- The arguments of a command that is forwarded, which `down` is not.
  not_down :
      (cmd : Text) (args : List Text)
      → command_of cmd ≡ forwarded
      → is_command (text "down") (cmd ∷ args) ≡ false
  unfolding is_command command_of text text_eq
  not_down cmd args h = elim (Bool-cases (text_eq cmd (text "down"))) [
    | inl same ↦
        let e : down ≡ forwarded =
          subst (λ c. command_of c ≡ forwarded) (eq_of_text_eq cmd (text "down") same) h in
        absurd cc
    | inr other ↦ other
  ]

  handled_request-dispatch :
      (cmd : Text) (args : List Text) (j : Joined X)
      → command_of cmd ≡ forwarded
      → is_command (text "pause") (cmd ∷ args) ≡ false
      → handled_request (record { argv = cmd ∷ args; env = env }) j
        ≡ handled X fuel depth root env j (
            as_handled (
              answer_of
                (dispatch X fuel depth root (cmd ∷ args) (record j.host { req_env = env }))))
  unfolding handled_request
  handled_request-dispatch cmd args j c p = ap (handled X fuel depth root env j) (
      handle-dispatch X fuel depth root (record { argv = cmd ∷ args; env = env }) j.host
        (not_down cmd args c) p)

  abbrev IsStopped : Res Outcome × Joined X → Type 0
  IsStopped r =
      (r.0 ≡ ok (says (text "daemon stopped"))) × ((r.1.running ≡ false) × (r.1.host.sess ≡ none))

  main-IsStopped :
      (j : Joined X) (r : Res Handled × Host X)
      → r.0
        ≡ ok (record {
          reply =
              some (record { content = text "daemon stopped"; is_error = false; shutdown = true });
          ends = true;
        })
      → r.1.sess ≡ none
      → IsStopped (
          and_then
            (caught (reading (handled X fuel depth root env j r)))
            (λ a. pure (sent_if_running a)))
  unfolding reading pure
  main-IsStopped j (x, h) e n = rw e (refl, (refl, n))

  module _ (V : Navigator (Joined X)) (C : Process (Joined X)) (rounds : ℕ) where
    pub main-dispatch :
        (cmd : Text) (args : List Text) (j : Joined X)
        → j.running ≡ true
        → command_of cmd ≡ forwarded
        → is_command (text "pause") (cmd ∷ args) ≡ false
        → (dispatch X fuel depth root (cmd ∷ args) (record j.host { req_env = env })).0 ≢ pending
        → main net V C rounds (cmd ∷ args) j
          ≡ told j (dispatch X fuel depth root (cmd ∷ args) (record j.host { req_env = env }))
    unfolding main root_dir carry_out ◌>>=◌ attempt
    main-dispatch cmd args j r c p returns =
        rw
          (
            c,
            send-joined rounds (project_root (C.exists j) (C.working_dir j) C.here) (cmd ∷ args) j
                r,
            handled_request-dispatch cmd args j c p,
          )
          (answered_main j
            (dispatch X fuel depth root (cmd ∷ args) (record j.host { req_env = env })) returns)

    -- With a daemon running, `gdbg down` says that it has stopped, and it has: it runs no more and has no
    -- session.
    pub main-stopped :
        (args : List Text) (j : Joined X)
        → j.running ≡ true
        → ((main net V C rounds (text "down" ∷ args) j).0 ≡ ok (says (text "daemon stopped")))
          × (((main net V C rounds (text "down" ∷ args) j).1.running ≡ false)
              × ((main net V C rounds (text "down" ∷ args) j).1.host.sess ≡ none))
    unfolding main root_dir carry_out command_of handled_request ◌>>=◌ attempt text text_eq
    main-stopped args j r =
        let req : Request = record { argv = text "down" ∷ args; env = [] } in
        let (answered, closed) =
          handle-down X fuel depth root req j.host (unfold is_command text text_eq in refl) in
        rw
          (send_if_running-joined (project_root (C.exists j) (C.working_dir j) C.here)
            (text "down" ∷ args) j r)
          (main-IsStopped j (handle X fuel depth root (some req) j.host) answered closed)
