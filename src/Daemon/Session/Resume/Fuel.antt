-- ===== src/Daemon/Session/Resume/Fuel.antt =====
-- How much fuel the loop of `resume` needs, and that more makes no difference.
use golang_debugger_skill.Base.{
  ℕ, zero, suc, ◌≤◌, ◌<◌, ◌≡◌, ◌≢◌, refl, inl, inr, Bool, true, false, Option, none, some, List, [],
  ◌∷◌, ◌++◌, arith, Text, text, show_int, Try, value, error, fail, pure, attempt, ◌>>=◌, Res, ok,
  err, pending, panicked, if◌then◌else◌, caught, and_then, Bool-cases, returned,
}
use golang_debugger_skill.Dlv.Types.{DebuggerState, EvalScope, Command, continue}
use golang_debugger_skill.Dlv.Client.{Outside}
use golang_debugger_skill.Daemon.State.{Session, World, Io, call, settle, current}
use golang_debugger_skill.Daemon.Logic.Total.{Ends, Ends-bind, Ends-update, Ends-fail, Ends-if}
use golang_debugger_skill.Daemon.Session.Logpoint.{
  Piece, plain, hole, fill, pieces, render_logpoint,
}
use golang_debugger_skill.Daemon.Session.Report.{stop_breakpoint}
use golang_debugger_skill.Daemon.Session.Stop.{exit_report}
use golang_debugger_skill.Daemon.Session.Ends.{
  render_logpoint-Ends, render_stop-Ends, exit_report-Ends,
}
use golang_debugger_skill.Daemon.Session.Resume.{
  resume_loop, resume, at_stop, after_command, report_stop, log_and_go, has_exited, template_at,
  mark_exited, reply_result, gone,
}

-- The target stops a limited number of times: `left` bounds the stops to come. Each resume command
-- that ends in a stop uses one up, and evaluating an expression adds none.
pub record Settles (X : Outside) (left : X.State → ℕ) : Type 0 where
  pub stops :
      (cmd : Command) (o : X.State) (state : DebuggerState) (halted : Bool)
      → reply_result (X.resume_command cmd o).0 ≡ value (state, halted)
      → left (X.resume_command cmd o).1 < left o
  pub looks : (at : EvalScope) (e : Text) (o : X.State) → left (X.eval at e o).1 ≤ left o

module _ (X : Outside) (left : X.State → ℕ) where
  -- No stop is added.
  record Lowers {A : Type 0} (m : Io X A) : Type 0 where
    at : (w : World X) → left (m w).1.outside ≤ left w.outside

module _ (X : Outside) {A : Type 0} where
  caught-outside : (r : Res A × World X) → (caught r).1 ≡ r.1
  caught-outside (ok a, w) = refl
  caught-outside (err e, w) = refl
  caught-outside (panicked, w) = refl
  caught-outside (pending, w) = refl

  settled-outside : (s : Session) (r : Try A × X.State) → (settle X s r).1.outside ≡ r.1
  settled-outside s (value a, o) = refl
  settled-outside s (error e, o) = refl

module _ {X : Outside} {left : X.State → ℕ} where
  Lowers-pure : {A : Type 0} (a : A) → Lowers X left (pure a)
  unfolding pure
  Lowers-pure a = record { at = λ w. omega arith }

  Lowers-attempt : {A : Type 0} (m : Io X A) → Lowers X left m → Lowers X left (attempt m)
  unfolding attempt
  Lowers-attempt m k = record { at = λ w. rw (caught-outside X (m w)) (k.at w) }

  then-Lowers :
      {A B : Type 0} (n : ℕ) (r : Res A × World X) (f : A → Io X B)
      → left r.1.outside ≤ n
      → ((a : A) → Lowers X left (f a))
      → left (and_then r f).1.outside ≤ n
  then-Lowers n (ok a, w) f h kf = omega (arith, (kf a).at w)
  then-Lowers n (err e, w) f h kf = h
  then-Lowers n (panicked, w) f h kf = h
  then-Lowers n (pending, w) f h kf = h

  Lowers-bind :
      {A B : Type 0} (m : Io X A) (f : A → Io X B)
      → Lowers X left m
      → ((a : A) → Lowers X left (f a))
      → Lowers X left (m >>= f)
  unfolding ◌>>=◌
  Lowers-bind m f km kf = record { at = λ w. then-Lowers (left w.outside) (m w) f (km.at w) kf }

  Lowers-eval : Settles X left → (at : EvalScope) (e : Text) → Lowers X left (call X (X.eval at e))
  unfolding call
  Lowers-eval S at e = record {
    at = λ w. rw (settled-outside X w.session (X.eval at e w.outside)) (S.looks at e w.outside);
  }

  fill-Lowers : Settles X left → (ps : List Piece) → Lowers X left (fill X ps)
  unfolding fill
  fill-Lowers S [] = Lowers-pure []
  fill-Lowers S (plain t ∷ ps) = Lowers-bind _ _ (fill-Lowers S ps) (λ _. Lowers-pure _)
  fill-Lowers S (hole e ∷ ps) =
      Lowers-bind _ _ (Lowers-attempt _ (Lowers-eval S _ e))
        (λ v. Lowers-bind _ _ (fill-Lowers S ps) (λ _. Lowers-pure _))

  render_logpoint-Lowers :
      Settles X left
      → (state : DebuggerState) (tmpl : Text) → Lowers X left (render_logpoint X state tmpl)
  unfolding render_logpoint
  render_logpoint-Lowers S state tmpl =
      Lowers-bind _ _ (fill-Lowers S (pieces none tmpl)) (λ _. Lowers-pure _)

module _ (X : Outside) (left : X.State → ℕ) where
  -- With so few stops to come the action ends.
  abbrev EndsBelow : ℕ → Io X Text → Type 0
  EndsBelow fuel m = (w : World X) → left w.outside < fuel → (m w).0 ≢ pending

  then-below :
      (fuel : ℕ) (r : Res Text × World X) (f : Text → Io X Text)
      → r.0 ≢ pending
      → left r.1.outside < fuel
      → ((a : Text) → EndsBelow fuel (f a))
      → (and_then r f).0 ≢ pending
  then-below fuel (ok a, w) f h lt ef = ef a w lt
  then-below fuel (err e, w) f h lt ef = λ p. cc
  then-below fuel (panicked, w) f h lt ef = λ p. cc
  then-below fuel (pending, w) f h lt ef = λ p. h refl

module _ {X : Outside} {left : X.State → ℕ} (S : Settles X left) (fuel : ℕ) where
  log_and_go-below :
      (next : List Text → Io X Text) (state : DebuggerState) (log_lines : List Text) (tmpl : Text)
      → ((ls : List Text) → EndsBelow X left fuel (next ls))
      → EndsBelow X left fuel (log_and_go X next state log_lines tmpl)
  unfolding log_and_go ◌>>=◌
  log_and_go-below next state log_lines tmpl k w lt =
      then-below X left fuel (render_logpoint X state tmpl w) _
        ((render_logpoint-Ends X state tmpl).at w)
        (omega (arith, (render_logpoint-Lowers S state tmpl).at w)) (λ line. k _)

  reported_exit-Ends :
      (log_lines : List Text) (msg : Text)
      → Ends X (mark_exited X >>= λ _. exit_report X log_lines msg)
  reported_exit-Ends log_lines msg =
      Ends-bind _ _ (Ends-update _) (λ _. exit_report-Ends X log_lines msg)

  report_stop-Ends :
      (state : DebuggerState) (halted : Bool) (log_lines : List Text)
      → Ends X (report_stop X state halted log_lines)
  unfolding report_stop
  report_stop-Ends state halted log_lines =
      Ends-bind _ _ (Ends-update _) (λ _. render_stop-Ends X state log_lines halted)

  at_stop-below :
      (next : List Text → Io X Text) (log_lines : List Text) (state : DebuggerState) (halted : Bool)
      (s : Session)
      → ((ls : List Text) → EndsBelow X left fuel (next ls))
      → EndsBelow X left fuel (at_stop X next log_lines state halted s)
  unfolding at_stop
  at_stop-below next log_lines state halted s k w lt = elim (Bool-cases state.exited) [
    | inl gone ↦ rw gone (
        (reported_exit-Ends log_lines
            (text "process exited with status " ++ show_int state.exit_status)).at
          w)
    | inr alive ↦ rw alive (by_template (template_at X s (stop_breakpoint state)))
  ]
    where
      by_template :
          (o : Option Text)
          → (let m : Io X Text = elim o [
            | some tmpl ↦ log_and_go X next state log_lines tmpl
            | none ↦ report_stop X state halted log_lines
          ] in
              (m w).0 ≢ pending)
      by_template none = (report_stop-Ends state halted log_lines).at w
      by_template (some tmpl) = log_and_go-below next state log_lines tmpl k w lt

  after_command-below :
      (next : List Text → Io X Text) (log_lines : List Text) (r : Try (DebuggerState × Bool))
      → ((ls : List Text) → EndsBelow X left fuel (next ls))
      → (w : World X)
      → ((state : DebuggerState) (halted : Bool)
          → r ≡ value (state, halted)
          → left w.outside < fuel)
      → (after_command X next log_lines r w).0 ≢ pending
  unfolding after_command ◌>>=◌ current
  after_command-below next log_lines (value (state, halted)) k w lt =
      at_stop-below next log_lines state halted w.session k w (lt state halted refl)
  after_command-below next log_lines (error e) k w lt =
      (Ends-if (has_exited e) _ _ (reported_exit-Ends log_lines e) (Ends-fail e)).at w

module _ {X : Outside} {left : X.State → ℕ} (S : Settles X left) where
  resume_loop-below :
      (fuel : ℕ) (cmd : Command) (log_lines : List Text)
      → EndsBelow X left fuel (resume_loop X fuel cmd log_lines)
  unfolding resume_loop ◌>>=◌
  resume_loop-below zero cmd log_lines w lt = absurd (omega arith)
  resume_loop-below (suc fuel) cmd log_lines w lt =
      by_reply (reply_result (X.resume_command cmd w.outside).0) refl
        (λ ls. resume_loop-below fuel continue ls)
    where
      after : World X
      after = record { session = w.session; outside = (X.resume_command cmd w.outside).1 }

      by_reply :
          (r : Try (DebuggerState × Bool))
          → reply_result (X.resume_command cmd w.outside).0 ≡ r
          → ((ls : List Text) → EndsBelow X left fuel (resume_loop X fuel continue ls))
          → (and_then {S = World X}
              (caught (returned r after))
              (after_command X (resume_loop X fuel continue) log_lines)).0
            ≢ pending
      by_reply (value (state, halted)) e k =
          after_command-below S fuel (resume_loop X fuel continue) log_lines (value (state, halted))
            k after (λ st h _. omega (arith, S.stops cmd w.outside state halted e))
      by_reply (error m) e k =
          after_command-below S fuel (resume_loop X fuel continue) log_lines (error m) k after
            (λ st h eq. absurd (cc))

  -- If the target stops a limited number of times, a continue or a step comes to an end: fuel
  -- above the number of stops to come is enough.
  pub resume_enough :
      (fuel : ℕ) (cmd : Command) (w : World X)
      → left w.outside < fuel
      → (resume X fuel cmd w).0 ≢ pending
  unfolding resume ◌>>=◌ current fail
  resume_enough fuel cmd w lt = by_flag w.session.exited
    where
      by_flag :
          (b : Bool)
          → (let m : Io X Text = if b then fail gone else resume_loop X fuel cmd [] in
              (m w).0 ≢ pending)
      by_flag true = λ p. cc
      by_flag false = resume_loop-below fuel cmd [] w lt
