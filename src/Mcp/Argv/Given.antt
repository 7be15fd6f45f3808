-- ===== src/Mcp/Argv/Given.antt =====
-- The values that the parser finds under each name in the vector of `launchArgv`.
use golang_debugger_skill.Base.{
  ◌≡◌, refl, ◌∙◌, ap, Bool, true, false, List, [], ◌∷◌, ◌++◌, append-nil, Text, text, text_eq,
  is_empty, if◌then◌else◌,
}
use mathlib.Core.Path.{ap₂}
use golang_debugger_skill.Daemon.Args.Flags.{lookup, values, first}
use golang_debugger_skill.Daemon.Args.RoundTrip.{Options, given, filled, values-filled}
use golang_debugger_skill.Daemon.Args.Spaced.{given-append}
use golang_debugger_skill.Mcp.Json.{Members, string_arg, list_arg}
use golang_debugger_skill.Mcp.Argv.Options.{one, each, asked_trace, asked, stays}
use golang_debugger_skill.Mcp.Argv.Launch.{staying, flags_of}

abbrev pub words_of : Text → List Text
words_of v = if is_empty v then [] else v ∷ []

given-one : (k name v : Text) → given k (one name v) ≡ (if text_eq name k then words_of v else [])
given-one k name [] = by_name (text_eq name k)
  where
    by_name : (b : Bool) → ◌≡◌ {A = List Text} [] (if b then [] else [])
    by_name true = refl
    by_name false = refl
given-one k name (c ∷ v) = refl

given-each :
    (k name : Text) (vs : List Text) → given k (each name vs) ≡ (if text_eq name k then vs else [])
given-each k name [] = given-one k name []
given-each k name (v ∷ vs) = rw (given-each k name vs) (by_name (text_eq name k))
  where
    by_name :
        (b : Bool)
        → (if b then v ∷ (if b then vs else []) else (if b then vs else []))
          ≡ (if b then v ∷ vs else [])
    by_name true = refl
    by_name false = refl

given-both :
    (k : Text) (o p : Options) {xs ys : List Text}
    → given k o ≡ xs
    → given k p ≡ ys
    → given k (o ++ p) ≡ xs ++ ys
given-both k o p e f = given-append k o p ∙ ap₂ (λ s t. s ++ t) e f

-- The options' values by name.
unfoldable mentions : (k name : Text) → List Text → List Text
mentions k name vs = if text_eq name k then vs else []

unfoldable pub traced : (k : Text) → Members → List Text
unfolding mentions
traced k a =
    mentions k (text "capture") (words_of (string_arg a (text "capture")))
    ++ mentions k (text "max") (words_of (string_arg a (text "max_hits")))

given-traced :
    (k : Text) (b : Bool) (a : Members)
    → given k (if b then asked_trace a else []) ≡ (if b then traced k a else [])
unfolding asked_trace traced
given-traced k true a = given-both k _ _ (given-one k _ _) (given-one k _ _)
given-traced k false a = refl

-- What both commands take.
unfoldable pub common : (k : Text) → Members → List Text
unfolding mentions
common k a =
    mentions k (text "pkg") (words_of (string_arg a (text "pkg")))
    ++ mentions k (text "test") (words_of (string_arg a (text "test")))
    ++ mentions k (text "bin-path") (words_of (string_arg a (text "bin_path")))
    ++ mentions k (text "break") (list_arg a (text "breakpoints"))
    ++ mentions k (text "break-fn") (list_arg a (text "break_functions"))
    ++ mentions k (text "build-flags") (words_of (string_arg a (text "build_flags")))

given-asked :
    (k cmd : Text) (a : Members)
    → given k (asked cmd a) ≡ common k a ++ (if text_eq cmd (text "trace") then traced k a else [])
unfolding asked common
given-asked k cmd a =
    given-both k _ _
      (given-both k _ _
        (given-both k _ _
          (given-both k _ _
            (given-both k _ _ (given-both k _ _ (given-one k _ _) (given-one k _ _))
              (given-one k _ _))
            (given-each k _ _))
          (given-each k _ _))
        (given-one k _ _))
      (given-traced k (text_eq cmd (text "trace")) a)

pub values-flags_of :
    (cmd : Text) (a : Members) (k : Text)
    → values (flags_of cmd a) k ≡ given k (asked cmd a) ++ given k (staying (stays cmd a))
unfolding flags_of values lookup
values-flags_of cmd a k =
    values-filled (staying (stays cmd a)) (filled (asked cmd a) []) k
    ∙ ap (λ t. t ++ given k (staying (stays cmd a))) (values-filled (asked cmd a) [] k)

given-staying :
    (k : Text) (b : Bool) → text_eq (text "stop-entry") k ≡ false → given k (staying b) ≡ []
given-staying k true h = rw h refl
given-staying k false h = refl

-- Every name but the switch's.
pub values_asked :
    (cmd : Text) (a : Members) (k : Text)
    → text_eq (text "stop-entry") k ≡ false
    → values (flags_of cmd a) k
      ≡ common k a ++ (if text_eq cmd (text "trace") then traced k a else [])
values_asked cmd a k h =
    values-flags_of cmd a k
    ∙ ap (λ t. given k (asked cmd a) ++ t) (given-staying k (stays cmd a) h)
    ∙ append-nil _
    ∙ given-asked k cmd a

untraced : (b : Bool) {xs : List Text} → xs ≡ [] → (if b then xs else []) ≡ []
untraced true e = e
untraced false e = refl

pub values-common :
    (cmd : Text) (a : Members) (k : Text)
    → text_eq (text "stop-entry") k ≡ false
    → traced k a ≡ []
    → values (flags_of cmd a) k ≡ common k a
values-common cmd a k h t =
    values_asked cmd a k h
    ∙ ap (λ t. common k a ++ t) (untraced (text_eq cmd (text "trace")) t)
    ∙ append-nil _

pub first_word :
    (cmd : Text) (a : Members) (k v : Text)
    → values (flags_of cmd a) k ≡ words_of v
    → first (flags_of cmd a) k ≡ v
unfolding first
first_word cmd a k v e = rw e (by_value v)
  where
    by_value : (w : Text) → elim (words_of w) [ [] ↦ [] | x ∷ xs ↦ x ] ≡ w
    by_value [] = refl
    by_value (c ∷ w) = refl
