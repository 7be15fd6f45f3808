-- ===== src/Nav/Walk/Visible.antt =====
-- Leaving directories out of the walk is the same as leaving their files out of the result.
use golang_debugger_skill.Base.{
  ◌≡◌, refl, sym, ◌∙◌, ap, Bool, true, false, not, ◌&&◌, ◌||◌, List, [], ◌∷◌, ◌++◌, append_assoc,
  append-nil, Text, if◌then◌else◌, Try,
}
use mathlib.Core.Path.{ap₂}
use golang_debugger_skill.Nav.Syntax.{Decl, Entry, Entries, file, dir, unreadable, end, entry}
use golang_debugger_skill.Nav.Walk.{
  is_skipped, is_go, file_hits, rel_join, shown_rel, base_of, walk, walk_all,
}

-- A file with the names of the directories that it is in.
pub record Found : Type 0 where
  pub dirs : List Text
  pub rel : Text
  pub base : Text
  pub decls : Try (List Decl)

-- Every file, whatever its directories are called.
abbrev mutual
  pub all_files : List Text → Text → Entry → List Found
  all_files dirs rel (file base r) = record { dirs = dirs; rel = rel; base = base; decls = r } ∷ []
  all_files dirs rel (dir base es) = each_files (base ∷ dirs) rel es
  all_files dirs rel unreadable = []

  pub each_files : List Text → Text → Entries → List Found
  each_files dirs rel end = []
  each_files dirs rel (entry e es) =
      all_files dirs (rel_join rel (base_of e)) e ++ each_files dirs rel es

abbrev pub any_skipped : List Text → Bool
any_skipped [] = false
any_skipped (d ∷ dirs) = is_skipped d || any_skipped dirs

-- A Go file in no directory that is left out.
abbrev pub is_visible : Found → Bool
is_visible f = not (any_skipped f.dirs) && is_go f.base

abbrev pub visible_hits : Text → List Found → List Text
visible_hits name [] = []
visible_hits name (f ∷ fs) =
    (if is_visible f then file_hits name (shown_rel f.rel) f.decls else []) ++ visible_hits name fs

visible_hits-append :
    (name : Text) (fs gs : List Found)
    → visible_hits name (fs ++ gs) ≡ visible_hits name fs ++ visible_hits name gs
visible_hits-append name [] gs = refl
visible_hits-append name (f ∷ fs) gs =
    ap (λ t. (if is_visible f then file_hits name (shown_rel f.rel) f.decls else []) ++ t)
      (visible_hits-append name fs gs)
    ∙ sym (
        append_assoc (if is_visible f then file_hits name (shown_rel f.rel) f.decls else [])
          (visible_hits name fs) (visible_hits name gs))

mutual
  hidden-nil :
      (name : Text) (dirs : List Text) (rel : Text) (e : Entry)
      → any_skipped dirs ≡ true
      → visible_hits name (all_files dirs rel e) ≡ []
  hidden-nil name dirs rel (file base r) h = rw h refl
  hidden-nil name dirs rel (dir base es) h =
      hidden_all-nil name (base ∷ dirs) rel es (by_skip (is_skipped base) h)
    where
      by_skip : (b : Bool) → any_skipped dirs ≡ true → (b || any_skipped dirs) ≡ true
      by_skip true k = refl
      by_skip false k = k
  hidden-nil name dirs rel unreadable h = refl

  hidden_all-nil :
      (name : Text) (dirs : List Text) (rel : Text) (es : Entries)
      → any_skipped dirs ≡ true
      → visible_hits name (each_files dirs rel es) ≡ []
  hidden_all-nil name dirs rel end h = refl
  hidden_all-nil name dirs rel (entry e es) h =
      visible_hits-append name (all_files dirs (rel_join rel (base_of e)) e)
        (each_files dirs rel es)
      ∙ ap₂ (λ s t. s ++ t) (hidden-nil name dirs (rel_join rel (base_of e)) e h)
          (hidden_all-nil name dirs rel es h)

mutual
  unfolding walk walk_all

  walk-visible :
      (name : Text) (dirs : List Text) (rel : Text) (e : Entry)
      → any_skipped dirs ≡ false
      → walk name rel e ≡ visible_hits name (all_files dirs rel e)
  walk-visible name dirs rel (file base r) h = rw (h, append-nil) refl
  walk-visible name dirs rel (dir base es) h =
      by_skip (is_skipped base) refl (walk_all-visible name (base ∷ dirs) rel es)
    where
      by_skip :
          (b : Bool)
          → is_skipped base ≡ b
          → (any_skipped (base ∷ dirs) ≡ false
              → walk_all name rel es ≡ visible_hits name (each_files (base ∷ dirs) rel es))
          → (if b then [] else walk_all name rel es)
            ≡ visible_hits name (each_files (base ∷ dirs) rel es)
      by_skip true e k = sym (hidden_all-nil name (base ∷ dirs) rel es (rw e refl))
      by_skip false e k = k (rw (e, h) refl)
  walk-visible name dirs rel unreadable h = refl

  walk_all-visible :
      (name : Text) (dirs : List Text) (rel : Text) (es : Entries)
      → any_skipped dirs ≡ false
      → walk_all name rel es ≡ visible_hits name (each_files dirs rel es)
  walk_all-visible name dirs rel end h = refl
  walk_all-visible name dirs rel (entry e es) h =
      ap₂ (λ s t. s ++ t) (walk-visible name dirs (rel_join rel (base_of e)) e h)
        (walk_all-visible name dirs rel es h)
      ∙ sym (
          visible_hits-append name (all_files dirs (rel_join rel (base_of e)) e)
            (each_files dirs rel es))

-- The walk, which does not enter some directories, finds exactly what the Go files that are in none
-- of those directories declare, file by file and in their order: it misses no other file.
pub walk-all_files :
    (name : Text) (e : Entry) → walk name [] e ≡ visible_hits name (all_files [] [] e)
walk-all_files name e = walk-visible name [] [] e refl
