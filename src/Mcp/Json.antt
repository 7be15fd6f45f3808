-- ===== src/Mcp/Json.antt =====
-- JSON values as Go's decoder gives them in an `any`, and the accessors `s`, `b` and `list`.
use golang_debugger_skill.Base.{Bool, false, List, [], ◌∷◌, Text, text_eq, if◌then◌else◌}

-- A `float64` is kept as the text that `FormatFloat` writes for it.
mutual
  pub data Json : Type 0 where
    null : Json
    boolean : Bool → Json
    number : Text → Json
    string : Text → Json
    array : Items → Json
    object : Members → Json

  pub data Items : Type 0 where
    no_items : Items
    item : Json → Items → Items

  -- A `map[string]any`; the nil map reads as an empty one.
  pub data Members : Type 0 where
    no_members : Members
    member : Text → Json → Members → Members

-- `a[key]`, which for a missing key is nil
unfoldable pub value_at : Text → Members → Json
unfolding text_eq
value_at key no_members = null
value_at key (member k v a) = if text_eq k key then v else value_at key a

abbrev as_string : Json → Text
as_string (string v) = v
as_string (number v) = v
as_string _ = []

abbrev as_bool : Json → Bool
as_bool (boolean v) = v
as_bool _ = false

abbrev add_string : Json → List Text → List Text
add_string (string v) out = v ∷ out
add_string _ out = out

abbrev strings : Items → List Text
strings no_items = []
strings (item r raw) = add_string r (strings raw)

abbrev as_list : Json → List Text
as_list (array raw) = strings raw
as_list _ = []

unfoldable pub string_arg : Members → Text → Text
unfolding value_at
string_arg a key = as_string (value_at key a)

unfoldable pub bool_arg : Members → Text → Bool
unfolding value_at
bool_arg a key = as_bool (value_at key a)

unfoldable pub list_arg : Members → Text → List Text
unfolding value_at
list_arg a key = as_list (value_at key a)
