-- ===== src/Nav/Where.antt =====
-- `Where` and `Gopls`.
pub mod Settled
use golang_debugger_skill.Base.{
  ℕ, Bool, true, false, Option, none, some, List, [], ◌∷◌, ◌++◌, Text, text, text_eq, has_prefix,
  is_empty, join, split, quote, newline, show_int, ℤ, trim_space, if◌then◌else◌, Res, M, ok, pure,
  fail, ◌>>=◌, ◌>>◌,
}
use golang_debugger_skill.Client.Root.{FilePath, show_path}
use golang_debugger_skill.Nav.Syntax.{Entry}
use golang_debugger_skill.Nav.Walk.{walk}

-- The project's files, the search path, and `gopls` run in a directory: its output and its error.
pub record Navigator (S : Type 0) : Type 0 where
  pub files : FilePath → S → Entry
  pub look_path : Text → S → Bool
  pub run_gopls : List Text → FilePath → S → (Text × Option Text) × S
  pub printable : ℕ → Bool

abbrev parent_of : FilePath → FilePath
parent_of [] = []
parent_of (name ∷ parent) = parent

-- `filepath.Join` onto a clean path: the names of the second path, one by one.
unfoldable pub join_onto : FilePath → List Text → FilePath
unfolding text_eq text
join_onto root [] = root
join_onto root (name ∷ names) = elim (is_empty name) [
  | true ↦ join_onto root names
  | false ↦ elim (text_eq name (text ".")) [
    | true ↦ join_onto root names
    | false ↦ elim (text_eq name (text "..")) [
      | true ↦ join_onto (parent_of root) names
      | false ↦ join_onto (name ∷ root) names
    ]
  ]
]

unfoldable pub abs_path : FilePath → Text → Text
unfolding has_prefix join_onto split show_path text
abs_path root path =
    if has_prefix path (text "/") then path else show_path (join_onto root (split b'/' path))

-- gopls has no `hover`; `signature` is the closest.
unfoldable pub gopls_verb : Text → Text
unfolding text text_eq
gopls_verb verb = if text_eq verb (text "hover") then text "signature" else verb

module _ {S : Type 0} (V : Navigator S) where
  found : (root : FilePath) (name : Text) → List Text → Text
  unfolding quote join show_path text
  found root name [] =
      text "no declaration of "
      ++ (quote V.printable name ++ (text " found under " ++ show_path root))
  found root name (h ∷ hits) = join (newline ∷ []) (h ∷ hits)

  unfoldable pub where_ : FilePath → Text → M S Text
  unfolding found walk
  where_ root name s = (ok (found root name (walk name [] (V.files root s))), s)

  has_gopls : M S Bool
  unfolding text
  has_gopls s = (ok (V.look_path (text "gopls") s), s)

  run : List Text → FilePath → M S (Text × Option Text)
  run args root s = let (out, s') = V.run_gopls args root s in (ok out, s')

  result : Text → Text × Option Text → M S Text
  unfolding trim_space text
  result verb (out, some e) =
      fail (text "gopls " ++ (verb ++ (text ": " ++ (e ++ (newline ∷ out)))))
  result verb (out, none) =
      pure (if is_empty (trim_space out) then text "no result" else trim_space out)

  ask_gopls : FilePath → (verb file : Text) → (line col : ℤ) → M S Text
  unfolding run result abs_path show_int
  ask_gopls root verb file line col = do
    r ←
        run (verb ∷ (abs_path root file ++ (b':' ∷ (show_int line ++ (b':' ∷ show_int col)))) ∷ [])
          root
    result verb r

  unfoldable pub gopls : FilePath → (verb file : Text) → (line col : ℤ) → M S Text
  unfolding has_gopls ask_gopls gopls_verb text
  gopls root verb file line col = do
    found_it ← has_gopls
    if found_it
        then ask_gopls root (gopls_verb verb) file line col
        else fail (
            text
              "gopls not found on PATH; install it with: go install golang.org/x/tools/gopls@latest")
