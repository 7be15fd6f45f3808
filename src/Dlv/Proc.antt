-- ===== src/Dlv/Proc.antt =====
-- The captured output of internal/dlv/spawn.go: the last lines of the target and how many of them
-- the user has seen. A line arrives by `append_output`, under the same lock as the reads.
pub mod Ring
use golang_debugger_skill.Base.{
  ℕ, ◌-◌, Bool, ◌||◌, List, [], ◌∷◌, ◌++◌, Text, text, has_prefix, length, drop, ltb, if◌then◌else◌,
}

pub record Proc : Type 0 where
  pub output : List Text
  pub seen : ℕ

abbrev pub output_ring_size : ℕ
output_ring_size = 400

-- The two notices that `appendOutput` leaves out.
unfoldable pub is_notice : Text → Bool
unfolding text has_prefix
is_notice line =
    has_prefix line (text "API server listening at:")
    || has_prefix line (text "debugserver or lldb-server")

-- `p.seen -= drop` and the reset to 0 are one truncated subtraction.
trim_ring : Proc → Proc
trim_ring p =
    if ltb output_ring_size (length p.output)
    then (let excess = length p.output - output_ring_size in
        record { output = drop excess p.output; seen = p.seen - excess })
    else p

unfoldable pub append_output : Text → Proc → Proc
unfolding trim_ring
append_output line p =
    if is_notice line then p else trim_ring (record p { output = p.output ++ (line ∷ []) })

unfoldable pub append_lines : List Text → Proc → Proc
append_lines [] p = p
append_lines (line ∷ lines) p = append_lines lines (append_output line p)

-- `p.output[p.seen:]` is in range by `Ring.IsRing`.
unfoldable pub new_output : Proc → List Text × Proc
new_output p = (drop p.seen p.output, record p { seen = length p.output })

unfoldable pub all_output : Proc → List Text × Proc
all_output p = (p.output, record p { seen = length p.output })

abbrev pub fresh : Proc
fresh = record { output = []; seen = 0 }
