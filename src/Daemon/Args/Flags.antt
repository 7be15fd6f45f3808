-- ===== src/Daemon/Args/Flags.antt =====
-- `parseArgs` and the maps it reads and fills.
use golang_debugger_skill.Base.{
  Bool, true, false, Option, none, some, List, [], ◌∷◌, ◌++◌, Text, text, text_eq, has_prefix,
  trim_prefix, cut, if◌then◌else◌, is_some, Try, value, error,
}

-- Maps by text keys. A Go map's missing key reads as the zero value.
module _ {V : Type 0} where
  unfoldable pub lookup : Text → List (Text × V) → Option V
  lookup k [] = none
  lookup k ((j, v) ∷ m) = if text_eq j k then some v else lookup k m

  unfoldable pub insert : Text → V → List (Text × V) → List (Text × V)
  insert k v [] = (k, v) ∷ []
  insert k v ((j, w) ∷ m) = if text_eq j k then (k, v) ∷ m else (j, w) ∷ insert k v m

-- `map[string]bool`: does the flag take a value?
abbrev pub FlagSpec : Type 0
FlagSpec = List (Text × Bool)

-- `map[string][]string`
abbrev pub Flags : Type 0
Flags = List (Text × List Text)

abbrev pub or_nil {ℓ} : {A : Type ℓ} → Option (List A) → List A
or_nil none = []
or_nil (some vs) = vs

-- `flags[name]`
unfoldable pub values : Flags → Text → List Text
unfolding lookup
values flags name = or_nil (lookup name flags)

-- `flags[name] = append(flags[name], val)`
unfoldable pub add_value : Flags → Text → Text → Flags
unfolding values insert
add_value flags name val = insert name (values flags name ++ (val ∷ [])) flags

abbrev head_or_empty : List Text → Text
head_or_empty [] = []
head_or_empty (v ∷ vs) = v

unfoldable pub first : Flags → Text → Text
unfolding values
first flags name = head_or_empty (values flags name)

unfoldable pub has : Flags → Text → Bool
unfolding lookup
has flags name = is_some (lookup name flags)

-- What an argument is. The equality form carries its value.
pub data Argument : Type 0 where
  end_mark : Argument
  assigned : Text → Text → Argument
  unknown : Text → Argument
  valued : Text → Argument
  switch : Text → Argument
  positional : Argument

abbrev pub assign : Text → Text → Option Bool → Argument
assign name val none = unknown name
assign name val (some takes_value) = assigned name val

abbrev pub bare : Text → Option Bool → Argument
bare name none = unknown name
bare name (some true) = valued name
bare name (some false) = switch name

unfoldable pub flag_kind : FlagSpec → Text → Argument
unfolding cut lookup
flag_kind spec name = elim (cut b'=' name) [
  | some (n, val) ↦ assign n val (lookup n spec)
  | none ↦ bare name (lookup name spec)
]

unfoldable pub dashes : Text
unfolding text
dashes = text "--"

unfoldable pub classify : FlagSpec → Text → Argument
unfolding dashes text_eq has_prefix trim_prefix flag_kind
classify spec a =
    if text_eq a dashes
    then end_mark
    else if has_prefix a dashes
    then flag_kind spec (trim_prefix a dashes)
    else positional

pub record Parsed : Type 0 where
  pub flags : Flags
  pub pos : List Text
  pub rest : List Text

unknown_flag : Text → Text
unknown_flag name = text "unknown flag --" ++ name

needs_value : Text → Text
needs_value name = dashes ++ (name ++ text " needs a value")

-- The loop over `args[i:]`. A flag that takes a value waits for the next argument.
unfoldable pub parse_loop : FlagSpec → List Text → Option Text → Flags → List Text → Try Parsed
unfolding classify add_value unknown_flag needs_value
parse_loop spec [] (some name) flags pos = error (needs_value name)
parse_loop spec (val ∷ args) (some name) flags pos =
    parse_loop spec args none (add_value flags name val) pos
parse_loop spec [] none flags pos = value (record { flags = flags; pos = pos; rest = [] })
parse_loop spec (a ∷ args) none flags pos = elim (classify spec a) [
  | end_mark ↦ value (record { flags = flags; pos = pos; rest = args })
  | assigned name val ↦ parse_loop spec args none (add_value flags name val) pos
  | unknown name ↦ error (unknown_flag name)
  | valued name ↦ parse_loop spec args (some name) flags pos
  | switch name ↦ parse_loop spec args none (add_value flags name []) pos
  | positional ↦ parse_loop spec args none flags (pos ++ (a ∷ []))
]

unfoldable pub parse_args : List Text → FlagSpec → Try Parsed
unfolding parse_loop
parse_args args spec = parse_loop spec args none [] []
