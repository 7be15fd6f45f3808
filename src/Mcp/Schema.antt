-- ===== src/Mcp/Schema.antt =====
-- `tool`, and what builds a tool's schema: `obj`, `str`, `num`, `boolp`, `arr` and `navSchema`.
use golang_debugger_skill.Base.{List, [], ◌∷◌, Text, text}
use golang_debugger_skill.Mcp.Json.{
  Json, Items, Members, string, array, object, no_items, item, no_members, member,
}

-- What a tool's `run` does: `forward(build)`, the function around `nav.Where`, or `navRun(verb)`.
pub data Run : Type 0 where
  forward : (build : Members → List Text) → Run
  find_symbol : Run
  nav_run : (verb : Text) → Run

pub record Tool : Type 0 where
  pub name : Text
  pub description : Text
  pub input_schema : Json
  pub run : Run

abbrev pub texts : List Text → Items
texts [] = no_items
texts (t ∷ ts) = item (string t) (texts ts)

-- Maps written out, from the list of their entries.
abbrev pub members : List (Text × Json) → Members
members [] = no_members
members ((k, v) ∷ props) = member k v (members props)

unfoldable pub obj : List (Text × Json) → (required : List Text) → Json
unfolding text
obj props required = object (
    members (
      (text "type", string (text "object"))
      ∷ (text "properties", object (members props))
      ∷ (text "required", array (texts required))
      ∷ []))

abbrev typed : (type desc : Text) → Json
typed type desc =
    object (members ((text "type", string type) ∷ (text "description", string desc) ∷ []))

unfoldable pub str : (desc : Text) → Json
unfolding text
str desc = typed (text "string") desc

unfoldable pub num : (desc : Text) → Json
unfolding text
num desc = typed (text "integer") desc

unfoldable pub boolp : (desc : Text) → Json
unfolding text
boolp desc = typed (text "boolean") desc

unfoldable pub arr : (desc : Text) → Json
unfolding text
arr desc = object (
    members (
      (text "type", string (text "array"))
      ∷ (text "items", object (members ((text "type", string (text "string")) ∷ [])))
      ∷ (text "description", string desc)
      ∷ []))

-- A string that is one of some
unfoldable pub choice : (choices : List Text) → List (Text × Json) → Json
unfolding text
choice choices more =
    object (
      members ((text "type", string (text "string")) ∷ (text "enum", array (texts choices)) ∷ more))

unfoldable pub nav_schema : Json
unfolding obj str num text
nav_schema =
    obj
      ((text "file", str (text "path relative to the project root"))
        ∷ (text "line", num (text "1-based line"))
        ∷ (text "col", num (text "1-based column"))
        ∷ [])
      (text "file" ∷ text "line" ∷ text "col" ∷ [])
