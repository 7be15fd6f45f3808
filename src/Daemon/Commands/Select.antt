-- ===== src/Daemon/Commands/Select.antt =====
-- `cmdBt`, `cmdList`, `currentLocation`, `cmdGoroutines`, `cmdGoroutine` and `cmdFrame`.
pub mod Laws
pub mod Keeps
use golang_debugger_skill.Base.{
  ℕ, zero, suc, ◌==◌, Bool, true, false, ◌||◌, Option, none, some, List, [], ◌∷◌, ◌++◌, Text, text,
  text_eq, is_empty, trim_newlines, newline, get_elem?, if◌then◌else◌, ℤ, pos, negsuc, eq_ℤ, ltb_ℤ,
  inc64, dec64, pad_left, show_int, atoi, parse_int, pure, fail, panic, returned, Try, value, error,
  ◌>>=◌, ◌>>◌,
}
use golang_debugger_skill.Dlv.Types.{Location, Goroutine}
use golang_debugger_skill.Dlv.Client.{Outside}
use golang_debugger_skill.Daemon.Args.Flags.{first, parse_args}
use golang_debugger_skill.Daemon.State.{Session, Io, call, current, update}
use golang_debugger_skill.Daemon.Session.Source.{place, source_context}
use golang_debugger_skill.Daemon.Session.Report.{name_or}
use golang_debugger_skill.Daemon.Commands.Inspect.{depth_spec}

abbrev marker : Bool → Text
marker selected = if selected then text "* " else text "  "

-- The rows of a backtrace from number `i` on.
unfoldable pub frame_rows : ℤ → ℤ → List Location → Text
unfolding place pad_left show_int text
frame_rows selected i [] = []
frame_rows selected i (fr ∷ frames) =
    (marker (eq_ℤ i selected)
      ++ (pad_left 2 (show_int i)
          ++ (text "  "
              ++ (name_or (text "?") fr.function
                  ++ (text "  " ++ (place fr.file fr.line ++ (newline ∷ [])))))))
    ++ frame_rows selected (inc64 i) frames

-- The user's location, or the current one where there is no file.
abbrev shown_location : Goroutine → Location
shown_location g = if is_empty (g.user_current_loc).file then g.current_loc else g.user_current_loc

unfoldable pub goroutine_rows : ℤ → List Goroutine → Text
unfolding place show_int text
goroutine_rows selected [] = []
goroutine_rows selected (g ∷ gs) =
    (marker (eq_ℤ selected g.id)
      ++ (text "goroutine "
          ++ (show_int g.id
              ++ (text "  "
                  ++ (name_or (text "?") (shown_location g).function
                      ++ (text "  "
                          ++ (place (shown_location g).file (shown_location g).line
                              ++ (newline ∷ []))))))))
    ++ goroutine_rows selected gs

module _ (X : Outside) where
  abbrev pub bt_depth : Text → Io X ℤ
  bt_depth [] = pure (pos 20)
  bt_depth (c ∷ d) = returned (atoi X.printable (c ∷ d))

  unfoldable pub cmd_bt : List Text → Io X Text
  unfolding parse_args depth_spec first atoi frame_rows trim_newlines text
  cmd_bt args = do
    p ← returned (parse_args args depth_spec)
    depth ← bt_depth (first p.flags (text "depth"))
    s ← current X
    frames ← call X (X.stacktrace s.sel_g depth)
    pure (trim_newlines (frame_rows s.sel_frame (pos 0) frames))

  -- `frames[s.selFrame]`: a negative index passes the length test and panics.
  unfoldable pub frame_at : ℤ → List Location → Io X Location
  unfolding show_int text
  frame_at (negsuc n) frames = panic
  frame_at (pos n) frames = elim (get_elem? frames n) [
    | none ↦ fail (text "frame " ++ (show_int (pos n) ++ text " out of range"))
    | some fr ↦ pure fr
  ]

  unfoldable pub current_location : Io X Location
  unfolding frame_at
  current_location = do
    s ← current X
    frames ← call X (X.stacktrace s.sel_g (inc64 s.sel_frame))
    frame_at s.sel_frame frames

  unfoldable pub cmd_list : Io X Text
  unfolding current_location source_context
  cmd_list = do fr ← current_location; source_context X fr.file fr.line 6

  unfoldable pub cmd_goroutines : Io X Text
  unfolding goroutine_rows trim_newlines
  cmd_goroutines = do
    gs ← call X (X.list_goroutines (pos 0) (pos 30))
    s ← current X
    pure (trim_newlines (goroutine_rows s.sel_g gs))

  unfoldable pub cmd_goroutine : List Text → Io X Text
  unfolding parse_int cmd_bt text
  cmd_goroutine (arg ∷ []) = do
    id ← returned (parse_int X.printable (text "ParseInt") arg)
    update X (λ s. record s { sel_g = id; sel_frame = pos 0 })
    cmd_bt []
  cmd_goroutine args = fail (text "usage: gdbg goroutine <id>")

  abbrev frame_usage : Text
  frame_usage = text "usage: gdbg frame <n>|up|down"

  -- `if s.selFrame > 0 { s.selFrame-- }`
  abbrev pub frame_below : ℤ → ℤ
  frame_below i = if ltb_ℤ (pos 0) i then dec64 i else i

  abbrev pub numbered_frame : Try ℤ → Io X (Unit {0})
  numbered_frame (error e) = fail frame_usage
  numbered_frame (value (negsuc n)) = fail frame_usage
  numbered_frame (value (pos n)) = update X (λ s. record s { sel_frame = pos n })

  unfoldable pub select_frame : Text → Io X (Unit {0})
  unfolding atoi text_eq text
  select_frame arg =
      if text_eq arg (text "up")
      then update X (λ s. record s { sel_frame = inc64 s.sel_frame })
      else if text_eq arg (text "down")
      then update X (λ s. record s { sel_frame = frame_below s.sel_frame })
      else numbered_frame (atoi X.printable arg)

  unfoldable pub cmd_frame : List Text → Io X Text
  unfolding select_frame current_location source_context show_int text
  cmd_frame (arg ∷ []) = do
    select_frame arg
    fr ← current_location
    s ← current X
    around ← source_context X fr.file fr.line 3
    pure (text "frame " ++ (show_int s.sel_frame ++ (text " selected\n" ++ around)))
  cmd_frame args = fail frame_usage
