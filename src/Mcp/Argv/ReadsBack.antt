-- ===== src/Mcp/Argv/ReadsBack.antt =====
-- The daemon understands a `debug_launch` or `debug_trace` as its caller meant it.
use golang_debugger_skill.Base.{
  ◌≡◌, refl, ◌∙◌, ap, Bool, true, false, ◌&&◌, ◌||◌, List, [], ◌∷◌, append-nil, Text, text, text_eq,
  if◌then◌else◌, drop, value,
}
use golang_debugger_skill.Daemon.Args.Flags.{lookup, values, first, has, Parsed, parse_args}
use golang_debugger_skill.Daemon.Args.Modes.{launch_spec}
use golang_debugger_skill.Daemon.Args.RoundTrip.{filled}
use golang_debugger_skill.Daemon.Args.Spaced.{is_given, is_given-append, has-filled}
use golang_debugger_skill.Mcp.Json.{Members, string_arg, bool_arg, list_arg}
use golang_debugger_skill.Mcp.Argv.{launch_argv}
use golang_debugger_skill.Mcp.Argv.Options.{
  one, each, asked_trace, asked, stays, launch_argv-options,
}
use golang_debugger_skill.Mcp.Argv.Launch.{staying, flags_of, parse_args-argv}
use golang_debugger_skill.Mcp.Argv.Given.{
  words_of, common, traced, values_asked, values-common, first_word,
}

module _ (cmd : Text) (a : Members) where
  reads_one :
      (k v : Text)
      → text_eq (text "stop-entry") k ≡ false
      → traced k a ≡ []
      → common k a ≡ words_of v
      → first (flags_of cmd a) k ≡ v
  reads_one k v h t c = first_word cmd a k v (values-common cmd a k h t ∙ c)

  reads_pkg : first (flags_of cmd a) (text "pkg") ≡ string_arg a (text "pkg")
  unfolding common traced text_eq text
  reads_pkg = reads_one (text "pkg") (string_arg a (text "pkg")) refl refl (simp append-nil)

  reads_test : first (flags_of cmd a) (text "test") ≡ string_arg a (text "test")
  unfolding common traced text_eq text
  reads_test = reads_one (text "test") (string_arg a (text "test")) refl refl (simp append-nil)

  reads_bin : first (flags_of cmd a) (text "bin-path") ≡ string_arg a (text "bin_path")
  unfolding common traced text_eq text
  reads_bin =
      reads_one (text "bin-path") (string_arg a (text "bin_path")) refl refl (simp append-nil)

  reads_build : first (flags_of cmd a) (text "build-flags") ≡ string_arg a (text "build_flags")
  unfolding common traced text_eq text
  reads_build = reads_one (text "build-flags") (string_arg a (text "build_flags")) refl refl refl

  reads_break : values (flags_of cmd a) (text "break") ≡ list_arg a (text "breakpoints")
  unfolding common traced text_eq text
  reads_break = values-common cmd a (text "break") refl refl ∙ simp append-nil

  reads_break_fn : values (flags_of cmd a) (text "break-fn") ≡ list_arg a (text "break_functions")
  unfolding common traced text_eq text
  reads_break_fn = values-common cmd a (text "break-fn") refl refl ∙ simp append-nil

  only_traced :
      (b : Bool) (v : Text) → (if b then words_of v else []) ≡ words_of (if b then v else [])
  only_traced true v = refl
  only_traced false v = refl

  -- A name that only `trace` is given.
  reads_traced :
      (k v : Text)
      → text_eq (text "stop-entry") k ≡ false
      → common k a ≡ []
      → traced k a ≡ words_of v
      → first (flags_of cmd a) k ≡ (if text_eq cmd (text "trace") then v else [])
  reads_traced k v h c t =
      first_word cmd a k (if text_eq cmd (text "trace") then v else [])
        (values_asked cmd a k h ∙ rw (c, t) (only_traced (text_eq cmd (text "trace")) v))

  reads_capture :
      first (flags_of cmd a) (text "capture")
      ≡ (if text_eq cmd (text "trace") then string_arg a (text "capture") else [])
  unfolding common traced text_eq text
  reads_capture =
      reads_traced (text "capture") (string_arg a (text "capture")) refl refl (simp append-nil)

  reads_max :
      first (flags_of cmd a) (text "max")
      ≡ (if text_eq cmd (text "trace") then string_arg a (text "max_hits") else [])
  unfolding common traced text_eq text
  reads_max = reads_traced (text "max") (string_arg a (text "max_hits")) refl refl refl

is_given-one : (k name v : Text) → text_eq name k ≡ false → is_given k (one name v) ≡ false
is_given-one k name [] h = refl
is_given-one k name (c ∷ v) h = rw h refl

is_given-each :
    (k name : Text) (vs : List Text) → text_eq name k ≡ false → is_given k (each name vs) ≡ false
is_given-each k name [] h = refl
is_given-each k name (v ∷ vs) h = rw (h, is_given-each k name vs h) refl

is_given-asked_trace :
    (b : Bool) (a : Members)
    → is_given (text "stop-entry") (if b then asked_trace a else []) ≡ false
is_given-asked_trace true a =
    unfold asked_trace text_eq text in simp (is_given-append, is_given-one)
is_given-asked_trace false a = refl

is_given-asked : (cmd : Text) (a : Members) → is_given (text "stop-entry") (asked cmd a) ≡ false
unfolding asked text_eq text
is_given-asked cmd a = simp (is_given-append, is_given-one, is_given-each, is_given-asked_trace)

not_given : (cmd : Text) (a : Members) → has (filled (asked cmd a) []) (text "stop-entry") ≡ false
not_given cmd a =
    has-filled (asked cmd a) [] (text "stop-entry")
    ∙ rw (is_given-asked cmd a) (unfold has lookup in refl)

staying-false : (b : Bool) → (is_given (text "stop-entry") (staying b) || false) ≡ b
unfolding text_eq text
staying-false true = refl
staying-false false = refl

has-stop_entry : (cmd : Text) (a : Members) → has (flags_of cmd a) (text "stop-entry") ≡ stays cmd a
unfolding flags_of
has-stop_entry cmd a =
    has-filled (staying (stays cmd a)) (filled (asked cmd a) []) (text "stop-entry")
    ∙ rw (not_given cmd a) (staying-false (stays cmd a))

-- What the caller of a tool says, and what the daemon's parser has read.
pub record IsMeant (cmd : Text) (a : Members) (p : Parsed) : Type 0 where
  pub pkg : first p.flags (text "pkg") ≡ string_arg a (text "pkg")
  pub test : first p.flags (text "test") ≡ string_arg a (text "test")
  pub bin_path : first p.flags (text "bin-path") ≡ string_arg a (text "bin_path")
  pub breakpoints : values p.flags (text "break") ≡ list_arg a (text "breakpoints")
  pub break_functions : values p.flags (text "break-fn") ≡ list_arg a (text "break_functions")
  pub build_flags : first p.flags (text "build-flags") ≡ string_arg a (text "build_flags")
  pub capture :
      first p.flags (text "capture")
      ≡ (if text_eq cmd (text "trace") then string_arg a (text "capture") else [])
  pub max_hits :
      first p.flags (text "max")
      ≡ (if text_eq cmd (text "trace") then string_arg a (text "max_hits") else [])
  pub stop_entry :
      has p.flags (text "stop-entry")
      ≡ (text_eq cmd (text "launch") && bool_arg a (text "stop_entry"))
  pub no_words : p.pos ≡ []
  pub program_args : p.rest ≡ list_arg a (text "args")

-- For every tool argument object, the vector of a launch or a trace is accepted by the daemon's
-- parser and means what the caller says, whatever the texts are, dashes and empty texts included:
-- each option has its value, each list its entries in order, and the program's arguments come last.
pub parse_args-launch_argv :
    (cmd : Text) (a : Members)
    → (p : Parsed) × (parse_args (drop 1 (launch_argv cmd a)) launch_spec ≡ value p)
      × IsMeant cmd a p
parse_args-launch_argv cmd a = (
  record { flags = flags_of cmd a; pos = []; rest = list_arg a (text "args") },
  ap (λ t. parse_args (drop 1 t) launch_spec) (launch_argv-options cmd a) ∙ parse_args-argv cmd a,
  record {
    pkg = reads_pkg cmd a;
    test = reads_test cmd a;
    bin_path = reads_bin cmd a;
    breakpoints = reads_break cmd a;
    break_functions = reads_break_fn cmd a;
    build_flags = reads_build cmd a;
    capture = reads_capture cmd a;
    max_hits = reads_max cmd a;
    stop_entry = unfold stays in has-stop_entry cmd a;
    no_words = refl;
    program_args = refl;
  },
)
