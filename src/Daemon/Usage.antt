-- ===== src/Daemon/Usage.antt =====
-- `cmdUsage` of internal/daemon/usage.go, over the records of the log.
pub mod Totals
pub mod Rows
use golang_debugger_skill.Base.{
  ℕ, zero, suc, ◌+◌, ◌==◌, Bool, true, false, not, ◌||◌, ◌&&◌, List, [], ◌∷◌, ◌++◌, Text, text,
  text_eq, is_empty, trim_newlines, newline, if◌then◌else◌, ltb, show, pad_left,
}
use golang_debugger_skill.Daemon.Host.{UsageRecord}

-- `stat`, with its command
pub record Stat : Type 0 where
  pub cmd : Text
  pub n : ℕ
  pub errs : ℕ

abbrev counted : UsageRecord → Stat → Stat
counted rec s = record s { n = suc s.n; errs = if rec.ok then s.errs else suc s.errs }

-- One record into the map of counts.
unfoldable pub count_record : UsageRecord → List Stat → List Stat
unfolding text_eq
count_record rec [] = counted rec (record { cmd = rec.cmd; n = 0; errs = 0 }) ∷ []
count_record rec (s ∷ stats) =
    if text_eq s.cmd rec.cmd then counted rec s ∷ stats else s ∷ count_record rec stats

unfoldable pub count_all : List UsageRecord → List Stat → List Stat
unfolding count_record
count_all [] stats = stats
count_all (rec ∷ recs) stats = count_all recs (count_record rec stats)

-- `a < b` on strings; by bytes and by code points it is the same order.
unfoldable pub text_lt : Text → Text → Bool
text_lt s [] = false
text_lt [] (d ∷ t) = true
text_lt (c ∷ s) (d ∷ t) = ltb c d || ((c == d) && text_lt s t)

-- More runs come first, and then the names decide.
unfoldable pub before : Stat → Stat → Bool
unfolding text_lt
before a b = if a.n == b.n then text_lt a.cmd b.cmd else ltb b.n a.n

unfoldable pub insert_stat : Stat → List Stat → List Stat
unfolding before
insert_stat s [] = s ∷ []
insert_stat s (t ∷ stats) = if before t s then t ∷ insert_stat s stats else s ∷ t ∷ stats

unfoldable pub sort_stats : List Stat → List Stat
unfolding insert_stat
sort_stats [] = []
sort_stats (s ∷ stats) = insert_stat s (sort_stats stats)

unfoldable pub stat_lines : List Stat → Text
unfolding pad_left show text
stat_lines [] = []
stat_lines (s ∷ stats) =
    (text "  "
      ++ (pad_left 4 (show s.n)
          ++ (text "  "
              ++ (s.cmd
                  ++ ((if s.errs == 0 then [] else text "  (" ++ (show s.errs ++ text " errors)"))
                      ++ (newline ∷ []))))))
    ++ stat_lines stats

-- The first time that is not empty.
abbrev first_ts : List UsageRecord → Text
first_ts [] = []
first_ts (rec ∷ recs) = if is_empty rec.ts then first_ts recs else rec.ts

abbrev total : List UsageRecord → ℕ
total [] = 0
total (rec ∷ recs) = suc (total recs)

unfoldable pub usage_report : List UsageRecord → Text
unfolding sort_stats count_all stat_lines trim_newlines show text
usage_report [] = text "no usage recorded yet"
usage_report (rec ∷ recs) = trim_newlines (
    show (total (rec ∷ recs))
    ++ (text " commands since "
        ++ (first_ts (rec ∷ recs)
            ++ (newline ∷ stat_lines (sort_stats (count_all (rec ∷ recs) []))))))
