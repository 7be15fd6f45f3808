-- ===== src/Daemon/Commands/Select/Laws.antt =====
-- The selected frame: it is not negative, so that looking it up does not go out of range.
use golang_debugger_skill.Base.{
  lt→ltb, ◌++◌, ==_iff, ap, ◌≡◌, ◌≢◌, refl, inl, inr, ℕ, zero, suc, ◌==◌, Bool, true, false, Option,
  none, some, List, [], ◌∷◌, Text, text, text_eq, ℤ, pos, negsuc, ltb_ℤ, inc64, max_int, Try, value,
  error, panicked, pure, fail, ◌>>=◌, and_then, arith, Bool-cases, if◌then◌else◌, atoi, get_elem?,
  show_int,
}
use golang_debugger_skill.Dlv.Types.{Location}
use golang_debugger_skill.Dlv.Client.{Outside}
use golang_debugger_skill.Daemon.State.{Session, World, Io, update, current, call, settle}
use golang_debugger_skill.Daemon.Logic.{Keeps, Keeps-after, keeps_rules}
use golang_debugger_skill.Daemon.Session.Source.{source_context}
use golang_debugger_skill.Daemon.Commands.Select.{
  bt_depth, cmd_bt, frame_at, current_location, cmd_list, frame_below, numbered_frame, select_frame,
  cmd_frame,
}

-- The selected frame is a number from 0 on.
abbrev pub IsFrame : Session → Type 0
IsFrame s = ltb_ℤ s.sel_frame (pos 0) ≡ false

pos-frame : (n : ℕ) → ltb_ℤ (pos n) (pos 0) ≡ false
pos-frame n = ground arith

inc64-frame : (i : ℤ) → ltb_ℤ i (pos 0) ≡ false → i ≢ pos max_int → ltb_ℤ (inc64 i) (pos 0) ≡ false
inc64-frame (pos n) h ne = elim (Bool-cases (n == max_int)) [
  | inl e ↦ absurd (ne (ap pos ((==_iff n max_int).0 e)))
  | inr e ↦ rw e (pos-frame (suc n))
]
inc64-frame (negsuc n) h ne = cc

module _ (X : Outside) where
  frame_below-frame : (i : ℤ) → ltb_ℤ i (pos 0) ≡ false → ltb_ℤ (frame_below X i) (pos 0) ≡ false
  frame_below-frame (pos zero) h = refl
  frame_below-frame (pos (suc n)) h = rw (lt→ltb 0 (suc n) (omega arith)) (pos-frame n)
  frame_below-frame (negsuc n) h = cc

  frame_at-Keeps :
      (Q : Session → Type 0) (i : ℤ) (frames : List Location) → Keeps X Q (frame_at X i frames)
  unfolding frame_at
  frame_at-Keeps Q (negsuc n) frames = search keeps_rules
  frame_at-Keeps Q (pos n) frames = by_frame (get_elem? frames n)
    where
      by_frame :
          (o : Option Location)
          → Keeps X {A = Location} Q (elim o [
            | none ↦ fail (text "frame " ++ (show_int (pos n) ++ text " out of range"))
            | some fr ↦ pure fr
          ])
      by_frame none = search keeps_rules
      by_frame (some fr) = search keeps_rules

  pub source_context-Keeps :
      (Q : Session → Type 0) (file : Text) (line : ℤ) (radius : ℕ)
      → Keeps X Q (source_context X file line radius)
  unfolding source_context
  source_context-Keeps Q file line radius = search keeps_rules

  pub current_location-Keeps : (Q : Session → Type 0) → Keeps X Q (current_location X)
  unfolding current_location
  current_location-Keeps Q = search (keeps_rules, frame_at-Keeps) depth 7

  pub cmd_list-Keeps : (Q : Session → Type 0) → Keeps X Q (cmd_list X)
  unfolding cmd_list
  cmd_list-Keeps Q = search (keeps_rules, current_location-Keeps, source_context-Keeps) depth 7

  bt_depth-Keeps : (Q : Session → Type 0) → (d : Text) → Keeps X Q (bt_depth X d)
  bt_depth-Keeps Q [] = search keeps_rules
  bt_depth-Keeps Q (c ∷ d) = search keeps_rules

  pub cmd_bt-Keeps : (Q : Session → Type 0) → (args : List Text) → Keeps X Q (cmd_bt X args)
  unfolding cmd_bt
  cmd_bt-Keeps Q args = search (keeps_rules, bt_depth-Keeps) depth 9

  -- A number from 0 on is looked up, and at worst is out of range.
  frame_at-returns :
      (i : ℤ) (frames : List Location) (w : World X)
      → ltb_ℤ i (pos 0) ≡ false
      → (frame_at X i frames w).0 ≢ panicked
  unfolding frame_at pure fail
  frame_at-returns (pos n) frames w h = by_frame (get_elem? frames n)
    where
      by_frame :
          (o : Option Location)
          → (let m : Io X Location = elim o [
            | none ↦ fail (text "frame " ++ (show_int (pos n) ++ text " out of range"))
            | some fr ↦ pure fr
          ] in
              (m w).0 ≢ panicked)
      by_frame none = λ e. cc
      by_frame (some fr) = λ e. cc
  frame_at-returns (negsuc n) frames w h = cc

  current_location-returns : (w : World X) → IsFrame w.session → (current_location X w).0 ≢ panicked
  unfolding current_location ◌>>=◌ current call
  current_location-returns w h =
      by_reply (X.stacktrace w.session.sel_g (inc64 w.session.sel_frame) w.outside)
    where
      by_reply :
          (r : Try (List Location) × X.State)
          → (and_then (settle X w.session r) (frame_at X w.session.sel_frame)).0 ≢ panicked
      by_reply (value frames, o) = frame_at-returns w.session.sel_frame frames _ h
      by_reply (error e, o) = λ p. cc

  select_frame-IsFrame :
      (arg : Text) (w : World X)
      → IsFrame w.session
      → w.session.sel_frame ≢ pos max_int
      → IsFrame (select_frame X arg w).1.session
  unfolding select_frame update fail
  select_frame-IsFrame arg w h ne =
      by_words (text_eq arg (text "up")) (text_eq arg (text "down")) (atoi X.printable arg)
    where
      by_number : (r : Try ℤ) → IsFrame (numbered_frame X r w).1.session
      by_number (error e) = h
      by_number (value (negsuc n)) = h
      by_number (value (pos n)) = pos-frame n

      by_words :
          (up down : Bool) (r : Try ℤ)
          → (let m : Io X (Unit {0}) =
                if up
                then update X (λ s. record s { sel_frame = inc64 s.sel_frame })
                else if down
                then update X (λ s. record s { sel_frame = frame_below X s.sel_frame })
                else numbered_frame X r in
              IsFrame (m w).1.session)
      by_words true down r = inc64-frame w.session.sel_frame h ne
      by_words false true r = frame_below-frame w.session.sel_frame h
      by_words false false r = by_number r

  cmd_frame-IsFrame :
      (args : List Text) (w : World X)
      → IsFrame w.session
      → w.session.sel_frame ≢ pos max_int
      → IsFrame (cmd_frame X args w).1.session
  unfolding cmd_frame fail
  cmd_frame-IsFrame [] w h ne = h
  cmd_frame-IsFrame (a ∷ b ∷ args) w h ne = h
  cmd_frame-IsFrame (arg ∷ []) w h ne =
      Keeps-after {Q = IsFrame} (select_frame X arg) (λ _. shown_frame) w
        (select_frame-IsFrame arg w h ne)
        (λ _. search (keeps_rules, current_location-Keeps, source_context-Keeps) depth 9)
    where
      shown_frame : Io X Text
      shown_frame = current_location X >>= λ fr. current X >>= λ s.
          source_context X fr.file fr.line 3 >>= λ around.
          pure (text "frame " ++ (show_int s.sel_frame ++ (text " selected\n" ++ around)))

  -- From a frame that is not negative and not the greatest number, `frame` selects one that is not
  -- negative, also where it ends in an error, and looking that frame up afterwards does not panic.
  pub cmd_frame-current_location :
      (args : List Text) (w : World X)
      → IsFrame w.session
      → w.session.sel_frame ≢ pos max_int
      → IsFrame (cmd_frame X args w).1.session
        × ((current_location X (cmd_frame X args w).1).0 ≢ panicked)
  cmd_frame-current_location args w h ne =
      (cmd_frame-IsFrame args w h ne, current_location-returns _ (cmd_frame-IsFrame args w h ne))
