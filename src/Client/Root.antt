-- ===== src/Client/Root.antt =====
-- `ProjectRoot` and the paths of the daemon's files. An absolute path is its names, the deepest first:
-- `filepath.Dir` drops one, and the root directory is its own parent.
pub mod Nearest
use golang_debugger_skill.Base.{
  Bool, true, false, ◌||◌, Option, none, some, List, [], ◌∷◌, ◌++◌, Text, text, if◌then◌else◌, Try,
  value, error,
}

abbrev pub FilePath : Type 0
FilePath = List Text

-- The markers, in the order in which they are looked for.
unfoldable pub markers : List Text
unfolding text
markers = text "go.mod" ∷ text ".git" ∷ []

-- `os.Stat(filepath.Join(cur, marker))` without an error, for one of the markers
unfoldable pub has_marker : (FilePath → Bool) → List Text → FilePath → Bool
has_marker exists [] cur = false
has_marker exists (m ∷ ms) cur = exists (m ∷ cur) || has_marker exists ms cur

-- The loop: `dir` is returned when the root directory has been looked at.
unfoldable pub climb : (FilePath → Bool) → (dir cur : FilePath) → FilePath
unfolding has_marker markers
climb exists dir [] = if has_marker exists markers [] then [] else dir
climb exists dir (name ∷ parent) =
    let above = climb exists dir parent in
    if has_marker exists markers (name ∷ parent) then name ∷ parent else above

-- `filepath.Abs` fails only where the working directory cannot be read; `dir` is then returned.
unfoldable pub project_root : (FilePath → Bool) → Try FilePath → FilePath → FilePath
unfolding climb
project_root exists (error e) dir = dir
project_root exists (value d) dir = climb exists d d

unfoldable pub state_dir : FilePath → FilePath
unfolding text
state_dir root = text ".gdbg" ∷ root

unfoldable pub log_path : FilePath → FilePath
unfolding state_dir text
log_path root = text "daemon.log" ∷ state_dir root

unfoldable pub usage_path : FilePath → FilePath
unfolding state_dir text
usage_path root = text "usage.jsonl" ∷ state_dir root

-- A path as text.
unfoldable pub show_names : FilePath → Text
show_names [] = []
show_names (name ∷ parent) = show_names parent ++ (b'/' ∷ name)

unfoldable pub show_path : FilePath → Text
unfolding show_names
show_path [] = b'/' ∷ []
show_path (name ∷ parent) = show_names (name ∷ parent)
