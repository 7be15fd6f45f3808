-- ===== src/Daemon/Args/Spaced.antt =====
-- Command lines that write an option's value as an argument of its own.
use golang_debugger_skill.Base.{
  ◌≡◌, refl, Bool, true, false, ◌||◌, none, List, [], ◌∷◌, ◌++◌, arith, All, Text, text_eq,
  if◌then◌else◌,
}
use golang_debugger_skill.Daemon.Args.Flags.{
  FlagSpec, Flags, values, add_value, has, valued, classify, parse_loop,
}
use golang_debugger_skill.Daemon.Args.Laws.{long, lookup-insert}
use golang_debugger_skill.Daemon.Args.RoundTrip.{Options, given, filled}

-- `--name` of the specification waits for a value.
abbrev pub Takes : FlagSpec → Text → Type 0
Takes spec name = classify spec (long name) ≡ valued name

abbrev pub spaced : Options → List Text
spaced [] = []
spaced ((name, val) ∷ opts) = long name ∷ val ∷ spaced opts

pub spaced-append : (o p : Options) → spaced (o ++ p) ≡ spaced o ++ spaced p
spaced-append [] p = refl
spaced-append ((name, val) ∷ o) p = rw (spaced-append o p)

pub given-append : (k : Text) (o p : Options) → given k (o ++ p) ≡ given k o ++ given k p
given-append k [] p = refl
given-append k ((name, val) ∷ o) p = by_name (text_eq name k) (given-append k o p)
  where
    by_name :
        (b : Bool)
        → given k (o ++ p) ≡ given k o ++ given k p
        → (if b then val ∷ given k (o ++ p) else given k (o ++ p))
          ≡ (if b then val ∷ given k o else given k o) ++ given k p
    by_name true e = rw e
    by_name false e = e

-- Whatever the values are, dashes among them, the loop takes each for its option.
pub parse_loop-spaced :
    (spec : FlagSpec) (opts : Options) (more : List Text) (flags : Flags) (pos : List Text)
    → All (λ o. Takes spec o.0) opts
    → parse_loop spec (spaced opts ++ more) none flags pos
      ≡ parse_loop spec more none (filled opts flags) pos
unfolding parse_loop
parse_loop-spaced spec [] more flags pos _ = refl
parse_loop-spaced spec ((name, val) ∷ opts) more flags pos (t, ts) =
    rw (t, parse_loop) (parse_loop-spaced spec opts more (add_value flags name val) pos ts)

has-add_value :
    (flags : Flags) (name val k : Text)
    → has (add_value flags name val) k ≡ (text_eq name k || has flags k)
unfolding has add_value
has-add_value flags name val k =
    ground (arith, lookup-insert name k (values flags name ++ (val ∷ [])) flags)

abbrev pub is_given : Text → Options → Bool
is_given k [] = false
is_given k ((name, val) ∷ opts) = text_eq name k || is_given k opts

pub is_given-append :
    (k : Text) (o p : Options) → is_given k (o ++ p) ≡ (is_given k o || is_given k p)
is_given-append k [] p = refl
is_given-append k ((name, val) ∷ o) p = ground (arith, is_given-append k o p)

pub has-filled :
    (opts : Options) (flags : Flags) (k : Text)
    → has (filled opts flags) k ≡ (is_given k opts || has flags k)
has-filled [] flags k = refl
has-filled ((name, val) ∷ opts) flags k =
    ground (arith, has-filled opts (add_value flags name val) k, has-add_value flags name val k)
