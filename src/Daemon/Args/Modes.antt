-- ===== src/Daemon/Args/Modes.antt =====
-- `launchSpec`, `breakSpec`, `launchMode`, `normalizeTestArgs` and `splitList`.
pub mod Launch
use Prim.Native.Nat.{suc}
use golang_debugger_skill.Base.{
  ℕ, ◌==◌, Bool, true, false, ◌||◌, Option, none, some, List, [], ◌∷◌, ◌++◌, map, Text, text,
  text_eq, is_empty, has_prefix, trim_prefix, split, trim_space, if◌then◌else◌, Try, value, error,
}
use golang_debugger_skill.Daemon.Args.Flags.{FlagSpec, Flags, first}

unfoldable pub launch_spec : FlagSpec
unfolding text
launch_spec =
    (text "pkg", true)
    ∷ (text "test", true)
    ∷ (text "bin-path", true)
    ∷ (text "build-flags", true)
    ∷ (text "break", true)
    ∷ (text "break-fn", true)
    ∷ (text "stop-entry", false)
    ∷ (text "capture", true)
    ∷ (text "max", true)
    ∷ (text "bt", true)
    ∷ []

unfoldable pub break_spec : FlagSpec
unfolding text
break_spec = (text "if", true) ∷ (text "hit", true) ∷ (text "log", true) ∷ (text "fn", true) ∷ []

-- The strings "debug", "test" and "exec".
pub data Mode : Type 0 where
  debug test exec : Mode

unfoldable pub mode_name : Mode → Text
unfolding text
mode_name debug = text "debug"
mode_name test = text "test"
mode_name exec = text "exec"

-- The flag that asks for the mode.
unfoldable pub mode_flag : Mode → Text
unfolding text
mode_flag debug = text "pkg"
mode_flag test = text "test"
mode_flag exec = text "bin-path"

-- The three `if` statements, over `mode`, `target` and the counter `n`.
record Chosen : Type 0 where
  mode : Mode
  target : Text
  n : ℕ

choose : Mode → Text → Chosen → Chosen
choose m v c = if is_empty v then c else record { mode = m; target = v; n = suc c.n }

need_one : Text
need_one = text "need exactly one of --pkg <dir>, --test <dir>, --bin-path <file>"

chosen : Chosen → Try (Mode × Text)
unfolding need_one
chosen c = if c.n == 1 then value (c.mode, c.target) else error need_one

unfoldable pub launch_mode : Flags → Try (Mode × Text)
unfolding choose chosen first mode_flag
launch_mode flags = chosen (
    choose exec (first flags (mode_flag exec)) (
      choose test (first flags (mode_flag test)) (
        choose debug (first flags (mode_flag debug))
          (record { mode = debug; target = []; n = 0 }))))

unfoldable pub test_flags : List Text
unfolding text
test_flags = text "run" ∷ text "v" ∷ text "count" ∷ text "bench" ∷ text "timeout" ∷ []

-- The body of the inner loop: `break` after the first name that fits.
is_flag : Text → Text → Bool
unfolding text_eq has_prefix
is_flag a f = text_eq a (b'-' ∷ f) || has_prefix a (b'-' ∷ (f ++ (b'=' ∷ [])))

unfoldable pub rename : Text → Text
unfolding trim_prefix text
rename a = text "-test." ++ trim_prefix a (b'-' ∷ [])

unfoldable pub names_flag : List Text → Text → Bool
unfolding is_flag
names_flag [] a = false
names_flag (f ∷ fs) a = is_flag a f || names_flag fs a

unfoldable pub normalize_arg : Text → Text
unfolding names_flag rename test_flags
normalize_arg a = if names_flag test_flags a then rename a else a

unfoldable pub normalize_test_args : Mode → List Text → List Text
unfolding normalize_arg
normalize_test_args test args = map normalize_arg args
normalize_test_args _ args = args

-- The loop of `splitList` keeps the parts that are not blank.
keep_parts : List Text → List Text
unfolding trim_space
keep_parts [] = []
keep_parts (p ∷ parts) =
    let rest = keep_parts parts in if is_empty (trim_space p) then rest else trim_space p ∷ rest

unfoldable pub split_list : Text → List Text
unfolding keep_parts split
split_list s = if is_empty s then [] else keep_parts (split b',' s)
