-- ===== src/Daemon/Dispatch/Exited.antt =====
-- What holds of a session until it is restarted.
use golang_debugger_skill.Base.{◌≡◌, refl, ◌∙◌, ℕ, Bool, true, false, List, Text}
use golang_debugger_skill.Dlv.Types.{continue}
use golang_debugger_skill.Dlv.Client.{Outside}
use golang_debugger_skill.Daemon.State.{Session, World}
use golang_debugger_skill.Daemon.Logic.{Keeps, Keeps-all_output, keeps_rules}
use golang_debugger_skill.Daemon.Session.Resume.Laws.{resume-Keeps}
use golang_debugger_skill.Daemon.Commands.Steady.{IsSteady}
use golang_debugger_skill.Daemon.Commands.Breaks.Keeps.{
  cmd_break-Keeps, cmd_break_rm-Keeps, cmd_break_toggle-Keeps, cmd_watch-Keeps, cmd_breaks-Keeps,
}
use golang_debugger_skill.Daemon.Commands.Run.Keeps.{
  cmd_step-Keeps, cmd_until-Keeps, cmd_pause-Keeps,
}
use golang_debugger_skill.Daemon.Commands.Inspect.Keeps.{cmd_vars-Keeps, cmd_eval-Keeps}
use golang_debugger_skill.Daemon.Commands.Inspect.Changing.{cmd_set-Keeps, cmd_state-Keeps}
use golang_debugger_skill.Daemon.Commands.WatchExpr.Keeps.{cmd_watch_expr-Keeps}
use golang_debugger_skill.Daemon.Commands.Select.Laws.{cmd_bt-Keeps, cmd_list-Keeps}
use golang_debugger_skill.Daemon.Commands.Select.Keeps.{cmd_goroutine-Keeps, cmd_frame-Keeps}
use golang_debugger_skill.Daemon.Dispatch.ReadOnly.{cmd_goroutines-Keeps}
use golang_debugger_skill.Daemon.Dispatch.{
  Name, break, breaks, break_rm, break_on, break_off, watch, continue_, step, until, pause, restart,
  vars, eval, set, watch_expr, bt, list, state, goroutines, goroutine, frame, output, show_output,
  session_command,
}

abbrev pub restarts : Name → Bool
restarts restart = true
restarts _ = false

module _ (X : Outside) {Q : Session → Type 0} (steady : IsSteady Q) where
  show_output-Keeps : (fuel : ℕ) → Keeps X Q (show_output X fuel)
  unfolding show_output
  show_output-Keeps fuel = search (keeps_rules, Keeps-all_output steady.resumed.stable.output)

  -- Every command but `restart`.
  session_command-Keeps :
      (fuel : ℕ) (name : Name) (cmd : Text) (args : List Text)
      → restarts name ≡ false
      → Keeps X Q (session_command X fuel name cmd args)
  unfolding session_command
  session_command-Keeps fuel break cmd args h = cmd_break-Keeps X steady args
  session_command-Keeps fuel breaks cmd args h = cmd_breaks-Keeps X Q
  session_command-Keeps fuel break_rm cmd args h = cmd_break_rm-Keeps X steady args
  session_command-Keeps fuel break_on cmd args h = cmd_break_toggle-Keeps X Q false args
  session_command-Keeps fuel break_off cmd args h = cmd_break_toggle-Keeps X Q true args
  session_command-Keeps fuel watch cmd args h = cmd_watch-Keeps X Q args
  session_command-Keeps fuel continue_ cmd args h = resume-Keeps X steady.resumed fuel continue
  session_command-Keeps fuel step cmd args h = cmd_step-Keeps X steady fuel args
  session_command-Keeps fuel until cmd args h = cmd_until-Keeps X steady fuel args
  session_command-Keeps fuel pause cmd args h = cmd_pause-Keeps X steady
  session_command-Keeps fuel restart cmd args h = cc
  session_command-Keeps fuel vars cmd args h = cmd_vars-Keeps X Q args
  session_command-Keeps fuel eval cmd args h = cmd_eval-Keeps X Q args
  session_command-Keeps fuel set cmd args h = cmd_set-Keeps X steady fuel args
  session_command-Keeps fuel watch_expr cmd args h = cmd_watch_expr-Keeps X steady args
  session_command-Keeps fuel bt cmd args h = cmd_bt-Keeps X Q args
  session_command-Keeps fuel list cmd args h = cmd_list-Keeps X Q
  session_command-Keeps fuel state cmd args h = cmd_state-Keeps X steady
  session_command-Keeps fuel goroutines cmd args h = cmd_goroutines-Keeps X Q
  session_command-Keeps fuel goroutine cmd args h = cmd_goroutine-Keeps X steady args
  session_command-Keeps fuel frame cmd args h = cmd_frame-Keeps X steady args
  session_command-Keeps fuel output cmd args h = show_output-Keeps fuel
  session_command-Keeps fuel _ cmd args h = search keeps_rules

-- The launch settings are those of `s`, and an exit of `s` is still noted.
pub record IsSince (s t : Session) : Type 0 where
  pub mode : t.mode ≡ s.mode
  pub target : t.target ≡ s.target
  pub target_args : t.target_args ≡ s.target_args
  pub ended : s.exited ≡ true → t.exited ≡ true

-- The fields that matter are the same in `u`.
IsSince-same :
    (s t u : Session)
    → u.mode ≡ t.mode
    → u.target ≡ t.target
    → u.target_args ≡ t.target_args
    → (t.exited ≡ true → u.exited ≡ true)
    → IsSince s t
    → IsSince s u
IsSince-same s t u em et ea ex h = record {
  mode = em ∙ h.mode;
  target = et ∙ h.target;
  target_args = ea ∙ h.target_args;
  ended = λ e. ex (h.ended e);
}

IsSince-IsSteady : (s : Session) → IsSteady (IsSince s)
IsSince-IsSteady s = record {
  resumed = record {
    stable = record {
      frame = λ t i. IsSince-same s t _ refl refl refl (λ e. e);
      locals = λ t l. IsSince-same s t _ refl refl refl (λ e. e);
      output = λ t p. IsSince-same s t _ refl refl refl (λ e. e);
    };
    reset = λ t. IsSince-same s t _ refl refl refl (λ e. e);
    marked = λ t. IsSince-same s t _ refl refl refl (λ e. refl);
  };
  view = λ t g. IsSince-same s t _ refl refl refl (λ e. e);
  watches = λ t es. IsSince-same s t _ refl refl refl (λ e. e);
  logs = λ t m. IsSince-same s t _ refl refl refl (λ e. e);
}

-- No command of a session but `restart` takes back that the program has exited or changes how the
-- target was launched, also where it ends in an error or a panic.
pub session_command-IsSince :
    (X : Outside) (fuel : ℕ) (name : Name) (cmd : Text) (args : List Text) (w : World X)
    → restarts name ≡ false
    → IsSince w.session (session_command X fuel name cmd args w).1.session
session_command-IsSince X fuel name cmd args w h =
    (session_command-Keeps X (IsSince-IsSteady w.session) fuel name cmd args h).at w
      (record { mode = refl; target = refl; target_args = refl; ended = λ e. e })
