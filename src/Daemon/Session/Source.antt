-- ===== src/Daemon/Session/Source.antt =====
-- `sourceArrow`, `sourceLine`, `sourceContext`, `writeOutput`, and the names of files in reports.
use golang_debugger_skill.Base.{
  ℕ, zero, suc, ◌-◌, ◌*◌, ◌==◌, Bool, true, false, ◌||◌, Option, none, some, List, [], ◌∷◌, ◌++◌,
  Text, text, split, trim_right, trim_newlines, newline, get_elem?, length, drop, ltb,
  if◌then◌else◌, ℤ, pos, eq_ℤ, inc64, sub_int, show, show_int, pad_left, Try, value, error, pure,
  ◌>>=◌, attempt,
}
use golang_debugger_skill.Dlv.Client.{Outside}
use golang_debugger_skill.Daemon.State.{Io, call}

-- `filepath.Base` on Unix: the part behind the last slash, trailing slashes aside.
last_part : Text → Text → Text
last_part part [] = part
last_part part (c ∷ s) = elim (c == b'/') [
  | true ↦ last_part [] s
  | false ↦ last_part (part ++ (c ∷ [])) s
]

abbrev base_or_slash : Text → Text
base_or_slash [] = b'/' ∷ []
base_or_slash (c ∷ s) = c ∷ s

unfoldable pub base : Text → Text
unfolding last_part trim_right
base [] = b'.' ∷ []
base (c ∷ s) = base_or_slash (last_part [] (trim_right (λ d. d == b'/') (c ∷ s)))

-- `%s:%d` of a file's base name and a line
unfoldable pub place : Text → ℤ → Text
unfolding base show_int
place file line = base file ++ (b':' ∷ show_int line)

is_blank : ℕ → Bool
is_blank c = (c == b' ') || (c == 9)

-- `lines[line-1]`, without trailing blanks; none out of range
unfoldable pub line_at : List Text → ℤ → Option Text
unfolding is_blank trim_right
line_at lines (pos (suc n)) = elim (get_elem? lines n) [
  | none ↦ none
  | some l ↦ some (trim_right is_blank l)
]
line_at lines _ = none

abbrev text_or_empty : Option Text → Text
text_or_empty none = []
text_or_empty (some t) = t

-- `%5d | ` after a marker
unfoldable pub numbered : Text → ℤ → Text → Text
unfolding pad_left show_int text
numbered marker line src =
    marker ++ (pad_left 5 (show_int line) ++ (text " | " ++ (src ++ (newline ∷ []))))

abbrev arrow_line : ℤ → Text → Text
arrow_line line [] = []
arrow_line line (c ∷ s) = numbered (text "   -> ") line (c ∷ s)

-- The window from `i` on, of so many lines. Numbers with no line are passed over.
unfoldable pub window : List Text → ℤ → ℤ → ℕ → Text
unfolding numbered line_at text
window lines line i zero = []
window lines line i (suc rounds) =
    (elim (line_at lines i) [
      | none ↦ []
      | some src ↦ numbered (if eq_ℤ i line then text "   -> " else text "      ") i src
    ])
    ++ window lines line (inc64 i) rounds

abbrev context_of : Text → ℤ → ℕ → Try Text → Text
context_of file line radius (error e) = text "cannot read " ++ (file ++ (text ": " ++ e))
context_of file line radius (value src) =
    trim_newlines (window (split newline src) line (sub_int line (pos radius)) (suc (2 * radius)))

abbrev line_of : ℤ → Try Text → Text
line_of line (error e) = []
line_of line (value src) = text_or_empty (line_at (split newline src) line)

abbrev max_output : ℕ
max_output = 30

unfoldable pub out_lines : List Text → Text
unfolding text
out_lines [] = []
out_lines (l ∷ lines) = text "out| " ++ (l ++ (newline ∷ out_lines lines))

-- `writeOutput`: the last thirty lines, behind a count of the others
unfoldable pub write_output : List Text → Text
unfolding out_lines text show
write_output lines =
    if ltb max_output (length lines)
    then text "out| … "
      ++ (show (length lines - max_output)
          ++ (text " earlier output lines (gdbg output)\n"
              ++ out_lines (drop (length lines - max_output) lines)))
    else out_lines lines

module _ (X : Outside) where
  unfoldable pub source_line : Text → ℤ → Io X Text
  unfolding line_at split
  source_line file line = do src ← attempt (call X (X.read_file file)); pure (line_of line src)

  unfoldable pub source_arrow : Text → ℤ → Io X Text
  unfolding source_line numbered text
  source_arrow file line = do src ← source_line file line; pure (arrow_line line src)

  unfoldable pub source_context : Text → ℤ → ℕ → Io X Text
  unfolding window split trim_newlines text
  source_context file line radius = do
    src ← attempt (call X (X.read_file file))
    pure (context_of file line radius src)
