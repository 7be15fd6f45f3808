-- ===== src/Daemon/Start.antt =====
-- `newSession` of internal/daemon/session.go as far as it starts dlv and connects to it. `Host` has the
-- session that it makes.
pub mod Clean
use golang_debugger_skill.Base.{
  Bool, Option, List, [], ◌∷◌, ◌++◌, Text, text, join, newline, is_empty, if◌then◌else◌, Try, value,
  error, M, ok, pure, fail, attempt, ◌>>=◌, ◌>>◌,
}
use golang_debugger_skill.Dlv.Proc.{Proc, append_lines}
use golang_debugger_skill.Dlv.Spawn.{Reader, Launcher, spawn}
use golang_debugger_skill.Dlv.Dial.{Dialer, dial}

module _ {S : Type 0} (L : Launcher S) (D : Dialer S) where
  arrived : M S (List Text)
  arrived s = let (lines, s') = L.arrived s in (ok lines, s')

  kill : M S (Unit {0})
  kill s = (ok tt, L.kill s)

  abbrev with_output : (e out : Text) → Text
  with_output e out = if is_empty out then e else e ++ (text "\ndlv output:\n" ++ out)

  dialled : Reader → Try (Unit {0}) → M S Proc
  unfolding arrived kill append_lines join text
  dialled r (value u) = pure r.proc
  dialled r (error e) = do
    lines ← arrived
    kill
    fail (with_output e (join (newline ∷ []) (append_lines lines r.proc).output))

  unfoldable pub start_debugger :
      (root mode target build_flags : Text)
      → (target_args : List Text) (env : Option (List Text)) → M S Proc
  unfolding spawn dial dialled
  start_debugger root mode target build_flags target_args env = do
    p ← spawn L root mode target build_flags target_args env
    c ← attempt (dial D p.0)
    dialled p.1 c
