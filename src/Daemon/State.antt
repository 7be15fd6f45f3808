-- ===== src/Daemon/State.antt =====
-- internal/daemon/session.go: the session, and the calls by which its methods reach the outside.
pub mod Logs
use golang_debugger_skill.Base.{
  ℕ, ◌==◌, Bool, true, false, Option, none, some, List, [], ◌∷◌, ◌++◌, Text, text, text_eq, ℤ, pos,
  negsuc, eq_ℤ, if◌then◌else◌, Res, M, Try, value, error, ok, err, pure, returned, ◌>>=◌, ◌>>◌,
}
use golang_debugger_skill.Dlv.Types.{EvalScope, Variable, LoadConfig}
use golang_debugger_skill.Dlv.Client.{Outside}
use golang_debugger_skill.Dlv.Proc
use golang_debugger_skill.Dlv.Proc.{Proc}
use golang_debugger_skill.Daemon.Args.Modes.{Mode}

pub record Session : Type 0 where
  pub mode : Mode
  pub target : Text
  pub target_args : List Text
  -- the goroutine that is looked at; -1 is the current one
  pub sel_g : ℤ
  pub sel_frame : ℤ
  pub watch_exprs : List Text
  -- message templates by breakpoint id
  pub logpoints : List (ℤ × Text)
  -- the values shown at the previous stop
  pub last_locals : List (Text × Text)
  pub exited : Bool
  pub proc : Proc

unfoldable pub find_log : ℤ → List (ℤ × Text) → Option Text
find_log id [] = none
find_log id ((j, t) ∷ m) = if eq_ℤ j id then some t else find_log id m

-- `delete(m, id)`; a key stands once in a map
unfoldable pub delete_log : ℤ → List (ℤ × Text) → List (ℤ × Text)
delete_log id [] = []
delete_log id ((j, t) ∷ m) = let rest = delete_log id m in if eq_ℤ j id then rest else (j, t) ∷ rest

unfoldable pub set_log : ℤ → Text → List (ℤ × Text) → List (ℤ × Text)
set_log id t [] = (id, t) ∷ []
set_log id t ((j, u) ∷ m) = if eq_ℤ j id then (id, t) ∷ m else (j, u) ∷ set_log id t m

pub record World (X : Outside) : Type 0 where
  pub session : Session
  pub outside : X.State

-- The view goes back to the place of the stop: `s.selG, s.selFrame = -1, 0`.
abbrev pub reset_view : Session → Session
reset_view s = record s { sel_g = negsuc 0; sel_frame = pos 0 }

abbrev pub scope : Session → EvalScope
scope s = record { goroutine_id = s.sel_g; frame = s.sel_frame; deferred_call = pos 0 }

module _ (X : Outside) where
  abbrev pub Io : Type 0 → Type 0
  Io A = M (World X) A

  abbrev pub settle : {A : Type 0} → Session → Try A × X.State → Res A × World X
  settle s (value a, o) = (ok a, record { session = s; outside = o })
  settle s (error e, o) = (err e, record { session = s; outside = o })

  -- One round trip. The session does not change.
  unfoldable pub call : {A : Type 0} → (X.State → Try A × X.State) → Io A
  call op w = settle w.session (op w.outside)

  unfoldable pub current : Io Session
  current w = (ok w.session, w)

  unfoldable pub update : (Session → Session) → Io (Unit {0})
  update f w = (ok tt, record w { session = f w.session })

  abbrev with_lines : Session → List Text × X.State → Res (List Text) × World X
  with_lines s (lines, o) =
      let (out, proc) = Proc.new_output (Proc.append_lines lines s.proc) in
      (ok out, record { session = record s { proc = proc }; outside = o })

  -- `s.proc.NewOutput()`, after the lines that have come meanwhile
  unfoldable pub new_output : Io (List Text)
  unfolding Proc.new_output Proc.append_lines
  new_output w = with_lines w.session (X.arrived w.outside)

  abbrev all_lines : Session → List Text × X.State → Res (List Text) × World X
  all_lines s (lines, o) =
      let (out, proc) = Proc.all_output (Proc.append_lines lines s.proc) in
      (ok out, record { session = record s { proc = proc }; outside = o })

  unfoldable pub all_output : Io (List Text)
  unfolding Proc.all_output Proc.append_lines
  all_output w = all_lines w.session (X.arrived w.outside)
