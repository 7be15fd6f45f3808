-- ===== src/Daemon/Commands/Select/Keeps.antt =====
-- `goroutine` and `frame` change only the view.
use golang_debugger_skill.Base.{
  List, [], ◌∷◌, Text, text, text_eq, ℤ, pos, negsuc, inc64, Try, value, error, atoi,
}
use golang_debugger_skill.Dlv.Client.{Outside}
use golang_debugger_skill.Daemon.State.{Session, update}
use golang_debugger_skill.Daemon.Logic.{Keeps, Keeps-bind, Keeps-if, Keeps-update, keeps_rules}
use golang_debugger_skill.Daemon.Commands.Steady.{IsSteady}
use golang_debugger_skill.Daemon.Commands.Select.{
  cmd_goroutine, numbered_frame, frame_below, select_frame, cmd_frame,
}
use golang_debugger_skill.Daemon.Commands.Select.Laws.{
  cmd_bt-Keeps, current_location-Keeps, source_context-Keeps,
}

module _ (X : Outside) {Q : Session → Type 0} (steady : IsSteady Q) where
  view-Keeps : (g : ℤ) → Keeps X Q (update X (λ s. record s { sel_g = g; sel_frame = pos 0 }))
  view-Keeps g = Keeps-update _ (λ s h. steady.view s g h)

  pub cmd_goroutine-Keeps : (args : List Text) → Keeps X Q (cmd_goroutine X args)
  unfolding cmd_goroutine
  cmd_goroutine-Keeps [] = search keeps_rules
  cmd_goroutine-Keeps (arg ∷ []) = search (keeps_rules, view-Keeps, cmd_bt-Keeps X Q) depth 8
  cmd_goroutine-Keeps (a ∷ b ∷ args) = search keeps_rules

  frame-Keeps : (f : Session → ℤ) → Keeps X Q (update X (λ s. record s { sel_frame = f s }))
  frame-Keeps f = Keeps-update _ (λ s h. steady.resumed.stable.frame s (f s) h)

  numbered_frame-Keeps : (r : Try ℤ) → Keeps X Q (numbered_frame X r)
  numbered_frame-Keeps (error e) = search keeps_rules
  numbered_frame-Keeps (value (negsuc n)) = search keeps_rules
  numbered_frame-Keeps (value (pos n)) = frame-Keeps (λ _. pos n)

  select_frame-Keeps : (arg : Text) → Keeps X Q (select_frame X arg)
  unfolding select_frame
  select_frame-Keeps arg =
      Keeps-if (text_eq arg (text "up")) _ _ (λ _. frame-Keeps (λ s. inc64 s.sel_frame))
        λ _.
          Keeps-if (text_eq arg (text "down")) _ _
            (λ _. frame-Keeps (λ s. frame_below X s.sel_frame))
            λ _. numbered_frame-Keeps (atoi X.printable arg)

  pub cmd_frame-Keeps : (args : List Text) → Keeps X Q (cmd_frame X args)
  unfolding cmd_frame
  cmd_frame-Keeps [] = search keeps_rules
  cmd_frame-Keeps (arg ∷ []) = Keeps-bind _ _ (select_frame-Keeps arg) λ _.
      Keeps-bind _ _ (current_location-Keeps X Q) λ fr.
        Keeps-bind _ _ (search keeps_rules)
          λ s. Keeps-bind _ _ (source_context-Keeps X Q fr.file fr.line 3) (search keeps_rules)
  cmd_frame-Keeps (a ∷ b ∷ args) = search keeps_rules
