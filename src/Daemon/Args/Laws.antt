-- ===== src/Daemon/Args/Laws.antt =====
-- What `parseArgs` accepts and returns.
use golang_debugger_skill.Base.{
  ℕ, ◌≡◌, ◌≢◌, refl, ◌∙◌, true, none, some, List, [], ◌∷◌, ◌++◌, arith, All, Text, text_eq,
  text_eq_iff, is_some, cut, if◌then◌else◌,
}
use golang_debugger_skill.Daemon.Args.Flags.{
  lookup, insert, FlagSpec, Flags, values, add_value, assigned, valued, flag_kind, dashes, classify,
  parse_loop,
}

module _ {V : Type 0} where
  pub lookup-insert :
      (k j : Text) (v : V) (m : List (Text × V))
      → lookup j (insert k v m) ≡ (if text_eq k j then some v else lookup j m)
  unfolding lookup insert
  lookup-insert k j v [] = refl
  lookup-insert k j v ((i, w) ∷ m) =
      ground (arith, text_eq_iff k j, text_eq_iff i k, text_eq_iff i j, lookup-insert k j v m)

-- A value is appended under its own name, and no other name changes.
pub values-add_value :
    (flags : Flags) (name val k : Text)
    → values (add_value flags name val) k
      ≡ (if text_eq name k then values flags name ++ (val ∷ []) else values flags k)
unfolding values add_value
values-add_value flags name val k =
    ground (arith, lookup-insert name k (values flags name ++ (val ∷ [])) flags)

-- A flag's name: not empty and with no `=`.
abbrev pub Lacks : ℕ → Text → Type 0
Lacks c = All (λ d. d ≢ c)

cut-Lacks : (c : ℕ) (s rest : Text) → Lacks c s → cut c (s ++ (c ∷ rest)) ≡ some (s, rest)
unfolding cut
cut-Lacks c [] rest h = ground arith
cut-Lacks c (d ∷ s) rest (h, hs) = ground (arith, cut-Lacks c s rest hs)

cut-none : (c : ℕ) (s : Text) → Lacks c s → cut c s ≡ none
unfolding cut
cut-none c [] h = refl
cut-none c (d ∷ s) (h, hs) = ground (arith, cut-none c s hs)

classify-flag :
    (spec : FlagSpec) (c : ℕ) (s : Text)
    → classify spec (dashes ++ (c ∷ s)) ≡ flag_kind spec (c ∷ s)
unfolding classify
classify-flag spec c s = refl

-- `--name` and `--name=value`.
abbrev pub long : Text → Text
long name = dashes ++ name

abbrev pub long_with : Text → Text → Text
long_with name val = dashes ++ (name ++ (b'=' ∷ val))

-- A name that the specification has and that can be written before a `=`.
pub record IsFlag (spec : FlagSpec) (name : Text) : Type 0 where
  pub named : name ≢ []
  pub plain : Lacks b'=' name
  pub known : is_some (lookup name spec) ≡ true

flag_kind-assigned :
    (spec : FlagSpec) (name val : Text)
    → IsFlag spec name
    → flag_kind spec (name ++ (b'=' ∷ val)) ≡ assigned name val
unfolding flag_kind
flag_kind-assigned spec name val f =
    rw (cut-Lacks b'=' name val f.plain, flag_kind) (ground (arith, f.known))

flag_kind-valued :
    (spec : FlagSpec) (name : Text)
    → Lacks b'=' name
    → lookup name spec ≡ some true
    → flag_kind spec name ≡ valued name
unfolding flag_kind
flag_kind-valued spec name lacks e = rw (cut-none b'=' name lacks, flag_kind, e)

classify-long_with :
    (spec : FlagSpec) (name val : Text)
    → IsFlag spec name
    → classify spec (long_with name val) ≡ assigned name val
classify-long_with spec [] val f = absurd (f.named refl)
classify-long_with spec (c ∷ s) val f =
    classify-flag spec c (s ++ (b'=' ∷ val)) ∙ flag_kind-assigned spec (c ∷ s) val f

classify-long :
    (spec : FlagSpec) (name : Text)
    → name ≢ []
    → Lacks b'=' name
    → lookup name spec ≡ some true
    → classify spec (long name) ≡ valued name
classify-long spec [] h lacks e = absurd (h refl)
classify-long spec (c ∷ s) h lacks e =
    classify-flag spec c s ∙ flag_kind-valued spec (c ∷ s) lacks e

pub parse_loop-long_with :
    (spec : FlagSpec) (name val : Text) (args : List Text) (flags : Flags) (pos : List Text)
    → IsFlag spec name
    → parse_loop spec (long_with name val ∷ args) none flags pos
      ≡ parse_loop spec args none (add_value flags name val) pos
unfolding parse_loop
parse_loop-long_with spec name val args flags pos f =
    rw (classify-long_with spec name val f, parse_loop)

-- For a flag that takes a value, its name not empty and without `=`, `--name=value` and `--name value` are the same, wherever they
-- stand and whatever the value is.
pub parse_loop-long :
    (spec : FlagSpec) (name val : Text) (args : List Text) (flags : Flags) (pos : List Text)
    → name ≢ []
    → Lacks b'=' name
    → lookup name spec ≡ some true
    → parse_loop spec (long name ∷ val ∷ args) none flags pos
      ≡ parse_loop spec (long_with name val ∷ args) none flags pos
unfolding parse_loop
parse_loop-long spec name val args flags pos h lacks e = rw (
  classify-long spec name h lacks e,
  parse_loop,
  parse_loop-long_with spec name val args flags pos
      (record { named = h; plain = lacks; known = rw e }),
)
