-- ===== src/Daemon/Args/Modes/Launch.antt =====
-- What `launchMode` chooses, and what `normalizeTestArgs` and `splitList` do to their words.
use golang_debugger_skill.Base.{
  ◌≡◌, ◌≢◌, ◌↔◌, refl, sym, ap, ◌∙◌, List, [], ◌∷◌, map, arith, Text, Try, value, Bool-cases, inl,
  inr,
}
use golang_debugger_skill.Daemon.Args.Flags.{Flags, first}
use golang_debugger_skill.Daemon.Args.Modes.{
  Mode, debug, test, exec, mode_flag, launch_mode, normalize_arg, normalize_test_args, choose,
  names_flag, test_flags, chosen,
}

-- The target that a mode's flag gives. An empty value counts as none.
abbrev pub target_of : Flags → Mode → Text
target_of flags m = first flags (mode_flag m)

abbrev pick : Text → Text → Text → Try (Mode × Text)
pick a b c =
    chosen
      (choose exec c (choose test b (choose debug a (record { mode = debug; target = []; n = 0 }))))

abbrev of_three : Text → Text → Text → Mode → Text
of_three a b c debug = a
of_three a b c test = b
of_three a b c exec = c

pick_sound :
    (a b c : Text) (m other : Mode) (target : Text)
    → pick a b c ≡ value (m, target)
    → (of_three a b c m ≡ target) × (target ≢ []) × (other ≢ m → of_three a b c other ≡ [])
unfolding choose chosen
pick_sound [] [] [] m other target h = cc
pick_sound [] [] (z ∷ c) m other target h = ground arith
pick_sound [] (y ∷ b) [] m other target h = ground arith
pick_sound (x ∷ a) [] [] m other target h = ground arith
pick_sound (x ∷ a) (y ∷ b) [] m other target h = cc
pick_sound (x ∷ a) [] (z ∷ c) m other target h = cc
pick_sound [] (y ∷ b) (z ∷ c) m other target h = cc
pick_sound (x ∷ a) (y ∷ b) (z ∷ c) m other target h = cc

pick_complete :
    (a b c : Text) (m : Mode)
    → of_three a b c m ≢ []
    → ((other : Mode) → other ≢ m → of_three a b c other ≡ [])
    → pick a b c ≡ value (m, of_three a b c m)
unfolding choose chosen
pick_complete a b c debug h none = rw (none test (λ e. cc), none exec (λ e. cc)) (ground arith)
pick_complete a b c test h none = rw (none debug (λ e. cc), none exec (λ e. cc)) (ground arith)
pick_complete a b c exec h none = rw (none debug (λ e. cc), none test (λ e. cc)) (ground arith)

launch_mode-pick :
    (flags : Flags)
    → launch_mode flags ≡ pick (target_of flags debug) (target_of flags test) (target_of flags exec)
launch_mode-pick flags = unfold launch_mode in refl

three-target :
    (flags : Flags) (m : Mode)
    → of_three (target_of flags debug) (target_of flags test) (target_of flags exec) m
      ≡ target_of flags m
three-target flags debug = refl
three-target flags test = refl
three-target flags exec = refl

-- A mode is returned exactly when its flag alone has a value that is not empty, and then the
-- target is that value.
pub launch_mode_iff :
    (flags : Flags) (m : Mode) (target : Text)
    → (launch_mode flags ≡ value (m, target)) ↔ (
        (target_of flags m ≡ target)
        × (target ≢ [])
        × ((other : Mode) → other ≢ m → target_of flags other ≡ []))
launch_mode_iff flags m target = (
  λ h.
      let sound = λ (other : Mode).
        pick_sound (target_of flags debug) (target_of flags test) (target_of flags exec) m other
          target (rw (← launch_mode-pick flags) h) in
      (
        rw (← three-target flags m) (sound m).0,
        (sound m).1,
        λ other ne. rw (← three-target flags other) ((sound other).2 ne),
      ),
  λ h.
      launch_mode-pick flags
      ∙ pick_complete (target_of flags debug) (target_of flags test) (target_of flags exec) m
          (λ z. h.1 (sym h.0 ∙ sym (three-target flags m) ∙ z))
          (λ other ne. three-target flags other ∙ h.2 other ne)
      ∙ ap (λ t. value (m, t)) (three-target flags m ∙ h.0),
)

normalize_arg_idem : (a : Text) → normalize_arg (normalize_arg a) ≡ normalize_arg a
unfolding normalize_arg
normalize_arg_idem a = elim (Bool-cases (names_flag test_flags a)) [
  | inl e ↦ rw e
  | inr e ↦ rw e (rw e)
]

map-normalize_arg_idem :
    (args : List Text) → map normalize_arg (map normalize_arg args) ≡ map normalize_arg args
map-normalize_arg_idem [] = refl
map-normalize_arg_idem (a ∷ args) = cc (normalize_arg_idem a, map-normalize_arg_idem args)

-- Normalizing the arguments of a test binary twice is the same as doing it once, in every mode.
pub normalize_test_args_idem :
    (m : Mode) (args : List Text)
    → normalize_test_args m (normalize_test_args m args) ≡ normalize_test_args m args
unfolding normalize_test_args
normalize_test_args_idem debug args = refl
normalize_test_args_idem test args = map-normalize_arg_idem args
normalize_test_args_idem exec args = refl
