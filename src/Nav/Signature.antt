-- ===== src/Nav/Signature.antt =====
-- `typeString`, `fieldString` and `signature`.
pub mod Plain
use golang_debugger_skill.Base.{
  Bool, true, false, not, ◌&&◌, Option, none, some, List, [], ◌∷◌, ◌++◌, map, Text, text, join,
  contains, if◌then◌else◌,
}
use golang_debugger_skill.Nav.Syntax.{
  Expr, ident, star, selector, array, map_of, ellipsis, func_type, interface_type, chan, index,
  other, Field, Func,
}

unfoldable pub type_string : Expr → Text
unfolding text
type_string (ident name) = name
type_string (star x) = b'*' ∷ type_string x
type_string (selector x sel) = type_string x ++ (b'.' ∷ sel)
type_string (array len elt) = text "[]" ++ type_string elt
type_string (map_of k v) = text "map[" ++ (type_string k ++ (b']' ∷ type_string v))
type_string (ellipsis elt) = text "..." ++ type_string elt
type_string func_type = text "func(…)"
type_string interface_type = text "interface{…}"
type_string (chan receive_only v) = text "chan " ++ type_string v
type_string (index x) = type_string x ++ text "[…]"
type_string other = text "?"

abbrev pub comma : Text
comma = text ", "

unfoldable pub field_string : Field → Text
unfolding type_string join text
field_string f = elim f.names [
  | [] ↦ type_string f.type
  | n ∷ ns ↦ join comma (n ∷ ns) ++ (b' ' ∷ type_string f.type)
]

abbrev pub field_strings : Option (List Field) → List Text
field_strings none = []
field_strings (some fs) = map field_string fs

-- One result without a space stands alone; else the results are in parentheses.
unfoldable pub result_text : List Text → Text
unfolding contains join text
result_text (r ∷ []) = if contains r (b' ' ∷ []) then text " (" ++ (r ++ text ")") else b' ' ∷ r
result_text rs = text " (" ++ (join comma rs ++ text ")")

abbrev results_text : Option (List Field) → Text
results_text none = []
results_text (some rs) = result_text (field_strings (some rs))

unfoldable pub signature : Func → Text
unfolding field_string result_text join text
signature f =
    text "(" ++ (join comma (field_strings f.params) ++ (text ")" ++ results_text f.results))
