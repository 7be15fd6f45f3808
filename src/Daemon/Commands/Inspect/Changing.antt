-- ===== src/Daemon/Commands/Inspect/Changing.antt =====
-- `set` and `state` change what a resume or a report changes.
use golang_debugger_skill.Base.{ℕ, Option, none, some, List, Text, text, text_eq, Try, value, error}
use golang_debugger_skill.Dlv.Types.{DebuggerState}
use golang_debugger_skill.Dlv.Client.{Outside}
use golang_debugger_skill.Daemon.State.{Session, update}
use golang_debugger_skill.Daemon.Logic.{Keeps, Keeps-if, Keeps-update, keeps_rules}
use golang_debugger_skill.Daemon.Session.Keeps.{render_stop-Keeps}
use golang_debugger_skill.Daemon.Session.Resume.Laws.{resume-Keeps}
use golang_debugger_skill.Daemon.Commands.Steady.{IsSteady}
use golang_debugger_skill.Daemon.Commands.Inspect.{
  set_failed, then_continue, assign_value, cmd_set, show_state, cmd_state,
}
use golang_debugger_skill.Daemon.Commands.Inspect.Keeps.{current_vars-Keeps}

module _ (X : Outside) {Q : Session → Type 0} (steady : IsSteady Q) where
  set_failed-Keeps : (sym : Text) (r : Try (Unit {0})) → Keeps X Q (set_failed X sym r)
  set_failed-Keeps sym (value u) = search keeps_rules
  set_failed-Keeps sym (error e) = search keeps_rules

  module _ (fuel : ℕ) where
    then_continue-Keeps : (msg what : Text) → Keeps X Q (then_continue X fuel msg what)
    unfolding then_continue
    then_continue-Keeps msg what =
        Keeps-if (text_eq what (text "continue")) _ _
          (λ _. search (keeps_rules, resume-Keeps X steady.resumed)) (λ _. search keeps_rules)

    assign_value-Keeps :
        (what : Text) (o : Option (Text × Text)) → Keeps X Q (assign_value X fuel what o)
    unfolding assign_value
    assign_value-Keeps what none = search keeps_rules
    assign_value-Keeps what (some (before, after)) =
        search (keeps_rules, set_failed-Keeps, then_continue-Keeps) depth 12

    pub cmd_set-Keeps : (args : List Text) → Keeps X Q (cmd_set X fuel args)
    unfolding cmd_set
    cmd_set-Keeps args = search (keeps_rules, assign_value-Keeps)

  locals-Keeps : (l : List (Text × Text)) → Keeps X Q (update X (λ s. record s { last_locals = l }))
  locals-Keeps l = Keeps-update _ (λ s h. steady.resumed.stable.locals s l h)

  show_state-Keeps : (o : Option DebuggerState) → Keeps X Q (show_state X o)
  unfolding show_state
  show_state-Keeps none = search keeps_rules
  show_state-Keeps (some state) =
      search
        (keeps_rules, locals-Keeps, render_stop-Keeps X steady.resumed.stable, current_vars-Keeps)
        depth 12

  pub cmd_state-Keeps : Keeps X Q (cmd_state X)
  unfolding cmd_state
  cmd_state-Keeps = search (keeps_rules, show_state-Keeps)
