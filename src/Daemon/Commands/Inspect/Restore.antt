-- ===== src/Daemon/Commands/Inspect/Restore.antt =====
-- `state` puts back the locals stays last.
use golang_debugger_skill.Base.{
  ◌≡◌, refl, List, [], ◌++◌, ◌∷◌, newline, trim_newlines, Option, none, some, Text, ok, pure, fail,
  ◌>>=◌, and_then, false, Try, value, error,
}
use golang_debugger_skill.Dlv.Types.{DebuggerState, default_load}
use golang_debugger_skill.Dlv.Client.{Outside}
use golang_debugger_skill.Daemon.State.{Session, World, Io, call, current, update, settle}
use golang_debugger_skill.Daemon.Logic.{Keeps, Gives, Gives-bind, keeps_rules}
use golang_debugger_skill.Daemon.Session.Stop.{current_vars, render_stop}
use golang_debugger_skill.Daemon.Commands.Inspect.{show_state, cmd_state, vars_part}
use golang_debugger_skill.Daemon.Commands.Inspect.Keeps.{current_vars-Keeps}

module _ (X : Outside) (l : List (Text × Text)) where
  abbrev Shown : Session → Type 0
  Shown s = s.last_locals ≡ l

  -- The end of `state`, from where the locals are put back.
  put_back : Text → Io X Text
  put_back stop = update X (λ s. record s { last_locals = l }) >>= λ _.
      current_vars X default_load >>= λ vars.
      pure (trim_newlines (stop ++ (newline ∷ vars_part X vars)))

  put_back-Gives : (stop : Text) → Gives X Shown (put_back stop)
  unfolding put_back update ◌>>=◌
  put_back-Gives stop = record {
    at =
        λ w a e. (stays stop).at (record w { session = record w.session { last_locals = l } }) refl;
  }
    where
      stays :
          (stop : Text)
          → Keeps X Shown (
              current_vars X default_load >>= λ vars.
              pure (trim_newlines (stop ++ (newline ∷ vars_part X vars))))
      stays stop = search (keeps_rules, current_vars-Keeps)

  rendered-Gives :
      (state : DebuggerState)
      → Gives X Shown (
          update X (λ s. record s { last_locals = [] }) >>= λ _.
          render_stop X state [] false >>= put_back)
  rendered-Gives state = Gives-bind _ _ λ _. Gives-bind _ _ put_back-Gives

module _ (X : Outside) where
  show_state-Gives :
      (o : Option DebuggerState) (w : World X) (t : Text)
      → (show_state X o w).0 ≡ ok t
      → (show_state X o w).1.session.last_locals ≡ w.session.last_locals
  unfolding show_state put_back ◌>>=◌ current fail
  show_state-Gives none w t e = refl
  show_state-Gives (some state) w t e = (rendered-Gives X w.session.last_locals state).at w t e

  -- Where `state` answers, the locals that the next stop is compared with are those from before, even
  -- though it renders a whole stop.
  pub cmd_state-last_locals :
      (w : World X) (t : Text)
      → (cmd_state X w).0 ≡ ok t
      → (cmd_state X w).1.session.last_locals ≡ w.session.last_locals
  unfolding cmd_state ◌>>=◌ call
  cmd_state-last_locals w t = by_reply (X.state w.outside)
    where
      by_reply :
          (r : Try (Option DebuggerState) × X.State)
          → (and_then (settle X w.session r) (show_state X)).0 ≡ ok t
          → (and_then (settle X w.session r) (show_state X)).1.session.last_locals
            ≡ w.session.last_locals
      by_reply (value o, out) e = show_state-Gives o _ t e
      by_reply (error m, out) e = refl
