-- ===== src/Client/Root/Nearest.antt =====
-- Which directory `ProjectRoot` returns.
use golang_debugger_skill.Base.{
  ◌≡◌, refl, sym, ap, subst, append-nil, ◌⊎◌, inl, inr, Bool, true, false, [], ◌∷◌, ◌++◌, Text,
  if◌then◌else◌, value,
}
use golang_debugger_skill.Client.Root.{FilePath, markers, has_marker, climb, project_root}

abbrev pub IsMarked : (FilePath → Bool) → FilePath → Type 0
IsMarked exists d = has_marker exists markers d ≡ true

abbrev pub IsUnmarked : (FilePath → Bool) → FilePath → Type 0
IsUnmarked exists d = has_marker exists markers d ≡ false

-- The directories on the way from `names ++ top` up, `top` left out, have no marker.
abbrev pub UnmarkedTo : (FilePath → Bool) → (names top : FilePath) → Type 0
UnmarkedTo exists [] top = Unit {0}
UnmarkedTo exists (name ∷ names) top =
    IsUnmarked exists (name ∷ (names ++ top)) × UnmarkedTo exists names top

-- `r` is the first marked directory from `d` up, or there is none and `r` is `dir`.
abbrev pub IsNearest : (FilePath → Bool) → (dir d r : FilePath) → Type 0
IsNearest exists dir d r =
    ((below : FilePath) × (d ≡ below ++ r) × IsMarked exists r × UnmarkedTo exists below r)
    ⊎ ((r ≡ dir) × IsUnmarked exists [] × UnmarkedTo exists d [])

-- One directory further down.
IsNearest-cons :
    (exists : FilePath → Bool) (dir : FilePath) (name : Text) (d r : FilePath)
    → IsUnmarked exists (name ∷ d)
    → IsNearest exists dir d r
    → IsNearest exists dir (name ∷ d) r
IsNearest-cons exists dir name d r n (inl (below, e, m, u)) =
    inl (name ∷ below, ap (λ t. name ∷ t) e, m, (subst (λ t. IsUnmarked exists (name ∷ t)) e n, u))
IsNearest-cons exists dir name d r n (inr (e, m, u)) =
    inr (e, m, (subst (λ t. IsUnmarked exists (name ∷ t)) (sym (append-nil d)) n, u))

climb-IsNearest :
    (exists : FilePath → Bool) (dir d : FilePath) → IsNearest exists dir d (climb exists dir d)
unfolding climb
climb-IsNearest exists dir [] = by_marker (has_marker exists markers []) refl
  where
    by_marker :
        (b : Bool)
        → has_marker exists markers [] ≡ b
        → IsNearest exists dir [] (if b then [] else dir)
    by_marker true m = inl ([], refl, m, tt)
    by_marker false n = inr (refl, n, tt)
climb-IsNearest exists dir (name ∷ parent) =
    by_marker (has_marker exists markers (name ∷ parent)) refl (climb-IsNearest exists dir parent)
  where
    by_marker :
        (b : Bool)
        → has_marker exists markers (name ∷ parent) ≡ b
        → IsNearest exists dir parent (climb exists dir parent)
        → IsNearest exists dir
            (name ∷ parent)
            (if b then name ∷ parent else climb exists dir parent)
    by_marker true m h = inl ([], refl, m, tt)
    by_marker false n h = IsNearest-cons exists dir name parent (climb exists dir parent) n h

-- The project root of a directory is the nearest directory from there up that has a `go.mod` or a
-- `.git`, or the directory itself where there is none up to the root of the file system.
pub project_root-IsNearest :
    (exists : FilePath → Bool) (d dir : FilePath)
    → IsNearest exists d d (project_root exists (value d) dir)
unfolding project_root
project_root-IsNearest exists d dir = climb-IsNearest exists d d
