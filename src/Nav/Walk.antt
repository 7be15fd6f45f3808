-- ===== src/Nav/Walk.antt =====
-- The walk of `Where` over the project's files.
pub mod Visible
use golang_debugger_skill.Base.{
  ℕ, Bool, true, false, ◌&&◌, ◌||◌, not, Option, none, some, List, [], ◌∷◌, ◌++◌, Text, text,
  text_eq, is_empty, has_prefix, reverse_onto, show, if◌then◌else◌, Try, value, error,
}
use golang_debugger_skill.Nav.Syntax.{
  Field, Func, Spec, type_spec, value_spec, import_spec, Decl, func_decl, gen_decl, bad_decl, Entry,
  Entries, file, dir, unreadable, end, entry,
}
use golang_debugger_skill.Nav.Signature.{type_string, signature}

-- Is a directory of that name left out, with all below it?
unfoldable pub is_skipped : Text → Bool
unfolding text text_eq has_prefix
is_skipped base =
    not (text_eq base (text "."))
    && (has_prefix base (text ".")
        || (text_eq base (text "vendor")
            || (text_eq base (text "testdata") || text_eq base (text "node_modules"))))

-- `strings.HasSuffix(path, ".go")`
unfoldable pub is_go : Text → Bool
unfolding has_prefix text
is_go path = has_prefix (reverse_onto path []) (reverse_onto (text ".go") [])

abbrev receiver_text : Option (List Field) → Text
receiver_text (some (f ∷ [])) = text "(" ++ (type_string f.type ++ text ") ")
receiver_text _ = []

-- `<file>:<line>  <what>`
unfoldable pub hit_line : (rel : Text) (line : ℕ) (what : Text) → Text
unfolding show text
hit_line rel line what = rel ++ (b':' ∷ (show line ++ (text "  " ++ what)))

module _ (name rel : Text) where
  unfoldable pub func_hits : Func → List Text
  unfolding hit_line signature type_string text text_eq
  func_hits f =
      if text_eq f.name name
      then hit_line rel f.line (text "func " ++ (receiver_text f.receiver ++ (name ++ signature f)))
        ∷ []
      else []

  unfoldable pub name_hits : Bool → List (Text × ℕ) → List Text
  unfolding hit_line text text_eq
  name_hits is_const [] = []
  name_hits is_const ((n, line) ∷ names) =
      (if text_eq n name
        then hit_line rel line ((if is_const then text "const " else text "var ") ++ name) ∷ []
        else [])
      ++ name_hits is_const names

  unfoldable pub spec_hits : Bool → Spec → List Text
  unfolding name_hits hit_line text text_eq
  spec_hits is_const (type_spec n line) =
      if text_eq n name then hit_line rel line (text "type " ++ name) ∷ [] else []
  spec_hits is_const (value_spec names) = name_hits is_const names
  spec_hits is_const import_spec = []

  unfoldable pub specs_hits : Bool → List Spec → List Text
  unfolding spec_hits
  specs_hits is_const [] = []
  specs_hits is_const (sp ∷ specs) = spec_hits is_const sp ++ specs_hits is_const specs

  unfoldable pub decl_hits : Decl → List Text
  unfolding func_hits specs_hits
  decl_hits (func_decl f) = func_hits f
  decl_hits (gen_decl is_const specs) = specs_hits is_const specs
  decl_hits bad_decl = []

  unfoldable pub decls_hits : List Decl → List Text
  unfolding decl_hits
  decls_hits [] = []
  decls_hits (d ∷ decls) = decl_hits d ++ decls_hits decls

  -- A file that cannot be parsed is passed over.
  abbrev file_hits : Try (List Decl) → List Text
  file_hits (error e) = []
  file_hits (value decls) = decls_hits decls

-- `filepath.Rel`: the path below the root, which is empty for the root here.
abbrev pub rel_join : Text → Text → Text
rel_join [] base = base
rel_join (c ∷ rel) base = (c ∷ rel) ++ (b'/' ∷ base)

abbrev shown_rel : Text → Text
shown_rel [] = b'.' ∷ []
shown_rel (c ∷ rel) = c ∷ rel

abbrev pub base_of : Entry → Text
base_of (file base r) = base
base_of (dir base es) = base
base_of unreadable = []

unfoldable mutual
  unfolding is_skipped is_go decls_hits

  pub walk : Text → Text → Entry → List Text
  walk name rel (file base r) = if is_go base then file_hits name (shown_rel rel) r else []
  walk name rel (dir base es) =
      let below = walk_all name rel es in if is_skipped base then [] else below
  walk name rel unreadable = []

  pub walk_all : Text → Text → Entries → List Text
  walk_all name rel end = []
  walk_all name rel (entry e es) = walk name (rel_join rel (base_of e)) e ++ walk_all name rel es
