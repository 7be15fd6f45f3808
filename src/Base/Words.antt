-- ===== src/Base/Words.antt =====
-- Numbers in text: `strconv.Atoi`, `%d` with widths, `%x` and `%q`.
use Prim.Native.Nat.{ℕ, zero, suc, ◌+◌, ◌-◌, ◌*◌, ◌/◌, ◌%◌, ◌^◌}
use mathlib.Core.Bool.{Bool, ◌&&◌, ◌||◌}
use mathlib.Core.List.{[], ◌∷◌, ◌++◌}
use golang_debugger_skill.Base.Tests.{ltb, leb, ◌==◌, if◌then◌else◌}
use golang_debugger_skill.Base.Lists.{length}
use golang_debugger_skill.Base.Int.{ℤ, pos, negsuc}
use golang_debugger_skill.Base.Strings.{Text, text, repeat}
use golang_debugger_skill.Base.Result.{Try, value, error}

-- The digit character of a number below the base.
abbrev digit : ℕ → ℕ
digit d = if ltb d 10 then b'0' + d else b'a' + (d - 10)

-- The digits of `n` before `out`, in a base from 2 on. Fuel above `n` is enough.
digits : ℕ → ℕ → ℕ → Text → Text
digits base zero n out = out
digits base (suc fuel) n out =
    let more = digits base fuel (n / base) (digit (n % base) ∷ out) in
    if ltb n base then digit n ∷ out else more

unfoldable pub show : ℕ → Text
unfolding digits
show n = digits 10 (suc n) n []

unfoldable pub hex : ℕ → Text
unfolding digits
hex n = digits 16 (suc n) n []

unfoldable pub show_int : ℤ → Text
unfolding show
show_int (pos n) = show n
show_int (negsuc n) = b'-' ∷ show (suc n)

-- `%5d` and `%-3d`: spaces up to a width, before or behind.
unfoldable pub pad_left : ℕ → Text → Text
unfolding repeat
pad_left width s = repeat (b' ' ∷ []) (width - length s) ++ s

unfoldable pub pad_right : ℕ → Text → Text
unfolding repeat
pad_right width s = s ++ repeat (b' ' ∷ []) (width - length s)

-- `%02x`, `%04x` and `%08x`.
unfoldable pub hex_padded : ℕ → ℕ → Text
unfolding hex repeat
hex_padded width n = repeat (b'0' ∷ []) (width - length (hex n)) ++ hex n

-- The two ways in which `strconv.ParseInt` fails.
pub data Number : Type 0 where
  number : ℕ → Number
  bad_syntax out_of_range : Number

-- The digits of an unsigned 64-bit number, read in order; the first fault decides.
unfoldable pub parse_digits : Text → ℕ → Number
parse_digits [] n = number n
parse_digits (c ∷ s) n =
    let m = n * 10 + (c - b'0') in
    if ltb c b'0' || ltb b'9' c
    then bad_syntax
    else if leb (2 ^ 64) m
    then out_of_range
    else parse_digits s m

abbrev parse_uint : Text → Number
parse_uint [] = bad_syntax
parse_uint (c ∷ s) = parse_digits (c ∷ s) 0

-- The range of `int64` on either side of zero.
abbrev from_positive : Number → Number
from_positive (number n) = if leb (2 ^ 63) n then out_of_range else number n
from_positive bad_syntax = bad_syntax
from_positive out_of_range = out_of_range

abbrev from_negative : Number → Number
from_negative (number n) = if ltb (2 ^ 63) n then out_of_range else number n
from_negative bad_syntax = bad_syntax
from_negative out_of_range = out_of_range

abbrev negated : ℕ → ℤ
negated zero = pos 0
negated (suc n) = negsuc n

-- `%q` for one code point. `printable` is Unicode's table of printable characters from 0x80 on.
module _ (printable : ℕ → Bool) where
  unfoldable pub quote_char : ℕ → Text
  unfolding hex_padded
  quote_char c =
      if c == b'"' || c == b'\\'
      then b'\\' ∷ c ∷ []
      else if (leb 0x20 c && ltb c 0x7f) || (leb 0x80 c && printable c)
      then c ∷ []
      else if c == 7
      then b'\\' ∷ b'a' ∷ []
      else if c == 8
      then b'\\' ∷ b'b' ∷ []
      else if c == 12
      then b'\\' ∷ b'f' ∷ []
      else if c == 10
      then b'\\' ∷ b'n' ∷ []
      else if c == 13
      then b'\\' ∷ b'r' ∷ []
      else if c == 9
      then b'\\' ∷ b't' ∷ []
      else if c == 11
      then b'\\' ∷ b'v' ∷ []
      else if ltb c 0x20 || c == 0x7f
      then b'\\' ∷ b'x' ∷ hex_padded 2 c
      else if ltb c 0x10000
      then b'\\' ∷ b'u' ∷ hex_padded 4 c
      else b'\\' ∷ b'U' ∷ hex_padded 8 c

  unfoldable pub quote_body : Text → Text
  quote_body [] = []
  quote_body (c ∷ s) = quote_char c ++ quote_body s

  unfoldable pub quote : Text → Text
  unfolding quote_body quote_char
  quote s = b'"' ∷ (quote_body s ++ b'"' ∷ [])

  -- The error text of `strconv`, with the name of the function called.
  num_error : Text → Text → Text → Text
  num_error fn s why = text "strconv." ++ (fn ++ (text ": parsing " ++ (quote s ++ why)))

  abbrev to_try : Text → Text → (ℕ → ℤ) → Number → Try ℤ
  to_try fn s sign (number n) = value (sign n)
  to_try fn s sign bad_syntax = error (num_error fn s (text ": invalid syntax"))
  to_try fn s sign out_of_range = error (num_error fn s (text ": value out of range"))

  -- `strconv.Atoi(s)` and `strconv.ParseInt(s, 10, 64)`, which differ in the name they report.
  unfoldable pub parse_int : Text → Text → Try ℤ
  unfolding parse_digits num_error
  parse_int fn [] = to_try fn [] pos bad_syntax
  parse_int fn (c ∷ s) =
      if c == b'-'
      then to_try fn (c ∷ s) negated (from_negative (parse_uint s))
      else if c == b'+'
      then to_try fn (c ∷ s) pos (from_positive (parse_uint s))
      else to_try fn (c ∷ s) pos (from_positive (parse_uint (c ∷ s)))

  unfoldable pub atoi : Text → Try ℤ
  unfolding parse_int
  atoi s = parse_int (text "Atoi") s

-- The value that `strconv.Atoi` returns beside its error: 0 for what is no number, and the nearest
-- integer for what is out of range.
abbrev nearest : (ℕ → ℤ) → (limit : ℕ) → Number → ℤ
nearest sign limit (number n) = sign n
nearest sign limit bad_syntax = pos 0
nearest sign limit out_of_range = sign limit

unfoldable pub atoi_value : Text → ℤ
unfolding parse_digits
atoi_value [] = pos 0
atoi_value (c ∷ s) =
    if c == b'-'
    then nearest negated (2 ^ 63) (from_negative (parse_uint s))
    else if c == b'+'
    then nearest pos (2 ^ 63 - 1) (from_positive (parse_uint s))
    else nearest pos (2 ^ 63 - 1) (from_positive (parse_uint (c ∷ s)))
