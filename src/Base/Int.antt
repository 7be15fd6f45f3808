-- ===== src/Base/Int.antt =====
-- Go's 64-bit signed `int`, as an integer with the wrap-around of `++` and `--` written out.
use Prim.Native.Nat.{ℕ, zero, suc, ◌+◌, ◌-◌, ◌^◌}
use mathlib.Core.Bool.{Bool, true, false}
use golang_debugger_skill.Base.Tests.{ltb, leb, ◌==◌, if◌then◌else◌}

-- `negsuc n` is -(n + 1).
pub data ℤ : Type 0 where
  pos : ℕ → ℤ
  negsuc : ℕ → ℤ

abbrev pub max_int : ℕ
max_int = 2 ^ 63 - 1

-- `a < b` and `a == b`.
abbrev pub ltb_ℤ : ℤ → ℤ → Bool
ltb_ℤ (pos m) (pos n) = ltb m n
ltb_ℤ (pos m) (negsuc n) = false
ltb_ℤ (negsuc m) (pos n) = true
ltb_ℤ (negsuc m) (negsuc n) = ltb n m

abbrev pub eq_ℤ : ℤ → ℤ → Bool
eq_ℤ (pos m) (pos n) = m == n
eq_ℤ (negsuc m) (negsuc n) = m == n
eq_ℤ _ _ = false

-- `n++`: the greatest int wraps to the least one.
abbrev pub inc64 : ℤ → ℤ
inc64 (pos n) = if n == max_int then negsuc max_int else pos (suc n)
inc64 (negsuc zero) = pos 0
inc64 (negsuc (suc n)) = negsuc n

-- `n--`: the least int wraps to the greatest one.
abbrev pub dec64 : ℤ → ℤ
dec64 (pos zero) = negsuc 0
dec64 (pos (suc n)) = pos n
dec64 (negsuc n) = if n == max_int then pos max_int else negsuc (suc n)

-- How far an index reaches: none below zero.
abbrev pub index : ℤ → ℕ
index (pos n) = n
index (negsuc n) = 0

-- A sum above the greatest int, or `-(n + 1)` below the least, wraps round.
abbrev wrap_up : ℕ → ℤ
wrap_up n = if leb n max_int then pos n else negsuc (2 ^ 64 - n - 1)

abbrev wrap_down : ℕ → ℤ
wrap_down n = if leb n max_int then negsuc n else pos (2 ^ 64 - n - 1)

-- `a - b` of two ints.
abbrev pub sub_int : ℤ → ℤ → ℤ
sub_int (pos m) (pos n) = if leb n m then pos (m - n) else negsuc (n - m - 1)
sub_int (pos m) (negsuc n) = wrap_up (m + suc n)
sub_int (negsuc m) (pos n) = wrap_down (m + n)
sub_int (negsuc m) (negsuc n) = if leb m n then pos (n - m) else negsuc (m - n - 1)
