-- ===== src/Daemon/Args/RoundTrip.antt =====
-- Command lines that are written out are read back, and flags come only from the specification.
use golang_debugger_skill.Base.{
  ◌≡◌, refl, subst, ◌∙◌, Bool, true, false, Option, none, some, List, [], ◌∷◌, ◌++◌, append_assoc,
  append-nil, arith, All, Text, text_eq, text_eq_iff, is_some, has_prefix, if◌then◌else◌, Try,
  value, error, Bool-cases, Option-cases, inl, inr, trim_prefix, cut,
}
use golang_debugger_skill.Daemon.Args.Flags.{
  lookup, FlagSpec, Flags, values, add_value, assign, bare, end_mark, positional, dashes, classify,
  Parsed, parse_loop, parse_args, Argument, assigned, unknown, valued, switch, flag_kind, insert,
}
use golang_debugger_skill.Daemon.Args.Laws.{
  IsFlag, long_with, parse_loop-long_with, values-add_value,
}

-- Options with their values, in order.
abbrev pub Options : Type 0
Options = List (Text × Text)

abbrev pub written : Options → List Text → List Text
written [] more = more
written ((name, val) ∷ opts) more = long_with name val ∷ written opts more

-- The values given to one name.
abbrev pub given : Text → Options → List Text
given k [] = []
given k ((name, val) ∷ opts) = if text_eq name k then val ∷ given k opts else given k opts

abbrev pub filled : Options → Flags → Flags
filled [] flags = flags
filled ((name, val) ∷ opts) flags = filled opts (add_value flags name val)

pub values-filled :
    (opts : Options) (flags : Flags) (k : Text)
    → values (filled opts flags) k ≡ values flags k ++ given k opts
values-filled [] flags k = rw append-nil
values-filled ((name, val) ∷ opts) flags k =
    values-filled opts (add_value flags name val) k
    ∙ rw values-add_value (
        ground (arith, text_eq_iff name k, append_assoc (values flags k) (val ∷ []) (given k opts)))

-- A word that is no flag and no end mark.
abbrev pub IsWord : Text → Type 0
IsWord a = has_prefix a dashes ≡ false

dashes-prefix : has_prefix dashes dashes ≡ true
unfolding dashes has_prefix
dashes-prefix = refl

classify-word : (spec : FlagSpec) (a : Text) → IsWord a → classify spec a ≡ positional
classify-word spec a h = unfold classify in ground (arith, text_eq_iff a dashes, dashes-prefix)

pub parse_loop-dashes :
    (spec : FlagSpec) (rest : List Text) (flags : Flags) (pos : List Text)
    → parse_loop spec (dashes ∷ rest) none flags pos
      ≡ value (record { flags = flags; pos = pos; rest = rest })
unfolding parse_loop
parse_loop-dashes spec rest flags pos = refl

parse_loop-word :
    (spec : FlagSpec) (a : Text) (args : List Text) (flags : Flags) (pos : List Text)
    → IsWord a
    → parse_loop spec (a ∷ args) none flags pos ≡ parse_loop spec args none flags (pos ++ (a ∷ []))
unfolding parse_loop
parse_loop-word spec a args flags pos h = rw (classify-word spec a h, parse_loop)

parse_loop-words :
    (spec : FlagSpec) (words rest : List Text) (flags : Flags) (pos : List Text)
    → All IsWord words
    → parse_loop spec (words ++ (dashes ∷ rest)) none flags pos
      ≡ value (record { flags = flags; pos = pos ++ words; rest = rest })
parse_loop-words spec [] rest flags pos _ = rw append-nil (parse_loop-dashes spec rest flags pos)
parse_loop-words spec (a ∷ words) rest flags pos (h, hs) =
    parse_loop-word spec a (words ++ (dashes ∷ rest)) flags pos h
    ∙ parse_loop-words spec words rest flags (pos ++ (a ∷ [])) hs
    ∙ rw append_assoc

parse_loop-written :
    (spec : FlagSpec) (opts : Options) (more : List Text) (flags : Flags) (pos : List Text)
    → All (λ o. IsFlag spec o.0) opts
    → parse_loop spec (written opts more) none flags pos
      ≡ parse_loop spec more none (filled opts flags) pos
parse_loop-written spec [] more flags pos _ = refl
parse_loop-written spec ((name, val) ∷ opts) more flags pos (f, fs) =
    parse_loop-long_with spec name val (written opts more) flags pos f
    ∙ parse_loop-written spec opts more (add_value flags name val) pos fs

-- A command line of options of the specification as `--name=value` with any values, words that do not begin with two
-- dashes, and `--` before any further arguments parses to those words, those arguments and, for
-- each name, its values in the order given.
pub parse_args-written :
    (spec : FlagSpec) (opts : Options) (words rest : List Text)
    → All (λ o. IsFlag spec o.0) opts
    → All IsWord words
    → (flags : Flags) × (parse_args (written opts (words ++ (dashes ∷ rest))) spec
        ≡ value (record { flags = flags; pos = words; rest = rest }))
      × ((k : Text) → values flags k ≡ given k opts)
parse_args-written spec opts words rest fs ws = (
  filled opts [],
  unfold parse_args in
      parse_loop-written spec opts (words ++ (dashes ∷ rest)) [] [] fs
      ∙ parse_loop-words spec words rest (filled opts []) [] ws,
  λ k. unfold values lookup in values-filled opts [] k,
)

-- Every name among the flags is one of the specification.
abbrev pub Known : FlagSpec → Flags → Type 0
Known spec = All (λ f. is_some (lookup f.0 spec) ≡ true)

insert-Known :
    (spec : FlagSpec) (flags : Flags) (name : Text) (vs : List Text)
    → is_some (lookup name spec) ≡ true
    → Known spec flags
    → Known spec (insert name vs flags)
unfolding insert
insert-Known spec [] name vs h k = (h, tt)
insert-Known spec ((j, w) ∷ m) name vs h (k, ks) = elim (Bool-cases (text_eq j name)) [
  | inl same ↦ rw same (h, ks)
  | inr other ↦ rw other (k, insert-Known spec m name vs h ks)
]

add_value-Known :
    (spec : FlagSpec) (flags : Flags) (name val : Text)
    → is_some (lookup name spec) ≡ true
    → Known spec flags
    → Known spec (add_value flags name val)
unfolding add_value
add_value-Known spec flags name val h k = insert-Known spec flags name _ h k

-- A name that an argument is classified under is known, if the argument is accepted.
abbrev Accepts : FlagSpec → Argument → Type 0
Accepts spec (assigned name val) = is_some (lookup name spec) ≡ true
Accepts spec (valued name) = is_some (lookup name spec) ≡ true
Accepts spec (switch name) = is_some (lookup name spec) ≡ true
Accepts spec _ = Unit {0}

assign-Accepts :
    (spec : FlagSpec) (n val : Text) (o : Option Bool)
    → lookup n spec ≡ o
    → Accepts spec (assign n val o)
assign-Accepts spec n val none e = tt
assign-Accepts spec n val (some b) e = rw e

bare-Accepts :
    (spec : FlagSpec) (n : Text) (o : Option Bool) → lookup n spec ≡ o → Accepts spec (bare n o)
bare-Accepts spec n none e = tt
bare-Accepts spec n (some true) e = rw e
bare-Accepts spec n (some false) e = rw e

flag_kind-Accepts : (spec : FlagSpec) (name : Text) → Accepts spec (flag_kind spec name)
unfolding flag_kind
flag_kind-Accepts spec name = elim (Option-cases (cut b'=' name)) [
  | inl e ↦ rw (e, flag_kind) (bare-Accepts spec name (lookup name spec) refl)
  | inr (p, e) ↦ rw (e, flag_kind) (assign-Accepts spec p.0 p.1 (lookup p.0 spec) refl)
]

classify-Accepts : (spec : FlagSpec) (a : Text) → Accepts spec (classify spec a)
classify-Accepts spec a =
    unfold classify in ground (arith, flag_kind-Accepts spec (trim_prefix a dashes))

-- What a parse that succeeds from some flags returns holds known names only.
abbrev Sound : FlagSpec → Try Parsed → Type 0
Sound spec (value p) = Known spec p.flags
Sound spec (error e) = Unit {0}

-- The rest of the loop is sound, whatever it starts from.
abbrev SoundFrom : FlagSpec → List Text → Type 0
SoundFrom spec args =
    (waits : Option Text) (flags : Flags) (pos : List Text)
    → ((name : Text) → waits ≡ some name → is_some (lookup name spec) ≡ true)
    → Known spec flags
    → Sound spec (parse_loop spec args waits flags pos)

parse_loop-step :
    (spec : FlagSpec) (a : Text) (args : List Text) (flags : Flags) (pos : List Text)
    → SoundFrom spec args
    → Known spec flags
    → (g : Argument) → classify spec a ≡ g
    → Accepts spec g
    → Sound spec (parse_loop spec (a ∷ args) none flags pos)
unfolding parse_loop
parse_loop-step spec a args flags pos next k end_mark e acc = rw (e, parse_loop) k
parse_loop-step spec a args flags pos next k (assigned name val) e acc =
    rw (e, parse_loop) (next none _ pos (λ n h. cc) (add_value-Known spec flags name val acc k))
parse_loop-step spec a args flags pos next k (unknown name) e acc = rw (e, parse_loop) tt
parse_loop-step spec a args flags pos next k (valued name) e acc =
    rw (e, parse_loop)
      (next (some name) flags pos (λ n h. let same : name ≡ n = cc in rw (← same) acc) k)
parse_loop-step spec a args flags pos next k (switch name) e acc =
    rw (e, parse_loop) (next none _ pos (λ n h. cc) (add_value-Known spec flags name [] acc k))
parse_loop-step spec a args flags pos next k positional e acc =
    rw (e, parse_loop) (next none flags (pos ++ (a ∷ [])) (λ n h. cc) k)

parse_loop-Sound : (spec : FlagSpec) (args : List Text) → SoundFrom spec args
unfolding parse_loop
parse_loop-Sound spec [] (some name) flags pos w k = tt
parse_loop-Sound spec (val ∷ args) (some name) flags pos w k =
    parse_loop-Sound spec args none _ pos (λ n e. cc)
      (add_value-Known spec flags name val (w name refl) k)
parse_loop-Sound spec [] none flags pos w k = k
parse_loop-Sound spec (a ∷ args) none flags pos w k =
    parse_loop-step spec a args flags pos (parse_loop-Sound spec args) k (classify spec a) refl
      (classify-Accepts spec a)

-- Every flag of a command line that is accepted is one that the specification names.
pub parse_args-Known :
    (spec : FlagSpec) (args : List Text) {p : Parsed}
    → parse_args args spec ≡ value p
    → Known spec p.flags
parse_args-Known spec args {p} h =
    subst (Sound spec) h (unfold parse_args in parse_loop-Sound spec args none [] [] (λ n e. cc) tt)
