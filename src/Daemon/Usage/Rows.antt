-- ===== src/Daemon/Usage/Rows.antt =====
-- The rows of the usage report.
use golang_debugger_skill.Base.{
  ℕ, ◌<◌, ◌≡◌, ◌≢◌, ◌⊎◌, refl, sym, ◌∙◌, false, List, [], ◌∷◌, arith, Text, text_eq, text_eq_iff,
  text_eq_refl, Bool-cases, inl, inr, All,
}
use golang_debugger_skill.Daemon.Host.{UsageRecord}
use golang_debugger_skill.Daemon.Usage.{
  Stat, count_record, count_all, text_lt, before, insert_stat, sort_stats,
}
use golang_debugger_skill.Daemon.Usage.Totals.{
  counts_of, runs_in, errors_in, InOrder, runs-count_all, errors-count_all, counts-sort_stats,
  sort_stats-InOrder,
}

-- The rows that are not of the command
abbrev Other : Text → List Stat → Type 0
Other c = All (λ s. s.cmd ≢ c)

-- Each command has one row.
abbrev pub IsMerged : List Stat → Type 0
IsMerged [] = Unit {0}
IsMerged (s ∷ stats) = Other s.cmd stats × IsMerged stats

-- More runs come first; where they are as many, the names do not go down.
abbrev pub IsSorted : List Stat → Type 0
IsSorted [] = Unit {0}
IsSorted (s ∷ []) = Unit {0}
IsSorted (s ∷ t ∷ stats) =
    ((t.n < s.n) ⊎ ((t.n ≡ s.n) × (text_lt t.cmd s.cmd ≡ false))) × IsSorted (t ∷ stats)

pair-IsSorted :
    (s t : Stat) → before t s ≡ false → (t.n < s.n) ⊎ ((t.n ≡ s.n) × (text_lt t.cmd s.cmd ≡ false))
unfolding before
pair-IsSorted s t h = ground arith

InOrder-IsSorted : (stats : List Stat) → InOrder stats → IsSorted stats
InOrder-IsSorted [] h = tt
InOrder-IsSorted (s ∷ []) h = tt
InOrder-IsSorted (s ∷ t ∷ stats) (h, hs) = (pair-IsSorted s t h, InOrder-IsSorted (t ∷ stats) hs)

count_record-Other :
    (c : Text) (rec : UsageRecord) (stats : List Stat)
    → rec.cmd ≢ c
    → Other c stats
    → Other c (count_record rec stats)
unfolding count_record
count_record-Other c rec [] ne h = (ne, tt)
count_record-Other c rec (s ∷ stats) ne (h, hs) = elim (Bool-cases (text_eq s.cmd rec.cmd)) [
  | inl e ↦ rw e (h, hs)
  | inr e ↦ rw e (h, count_record-Other c rec stats ne hs)
]

count_record-IsMerged :
    (rec : UsageRecord) (stats : List Stat) → IsMerged stats → IsMerged (count_record rec stats)
unfolding count_record
count_record-IsMerged rec [] h = (tt, tt)
count_record-IsMerged rec (s ∷ stats) (h, hs) = elim (Bool-cases (text_eq s.cmd rec.cmd)) [
  | inl e ↦ rw e (h, hs)
  | inr e ↦ rw e (
    count_record-Other s.cmd rec stats (λ p. ground (arith, e, p, text_eq_iff s.cmd rec.cmd)) h,
    count_record-IsMerged rec stats hs,
  )
]

count_all-IsMerged :
    (recs : List UsageRecord) (stats : List Stat) → IsMerged stats → IsMerged (count_all recs stats)
unfolding count_all
count_all-IsMerged [] stats h = h
count_all-IsMerged (rec ∷ recs) stats h =
    count_all-IsMerged recs (count_record rec stats) (count_record-IsMerged rec stats h)

insert_stat-Other :
    (c : Text) (s : Stat) (stats : List Stat)
    → s.cmd ≢ c
    → Other c stats
    → Other c (insert_stat s stats)
unfolding insert_stat
insert_stat-Other c s [] ne h = (ne, tt)
insert_stat-Other c s (t ∷ stats) ne (h, hs) = elim (Bool-cases (before t s)) [
  | inl e ↦ rw e (h, insert_stat-Other c s stats ne hs)
  | inr e ↦ rw e (ne, (h, hs))
]

insert_stat-IsMerged :
    (s : Stat) (stats : List Stat)
    → Other s.cmd stats
    → IsMerged stats
    → IsMerged (insert_stat s stats)
unfolding insert_stat
insert_stat-IsMerged s [] o h = (tt, tt)
insert_stat-IsMerged s (t ∷ stats) (o, os) (h, hs) = elim (Bool-cases (before t s)) [
  | inl e ↦
      rw e (insert_stat-Other t.cmd s stats (λ p. o (sym p)) h, insert_stat-IsMerged s stats os hs)
  | inr e ↦ rw e ((o, os), (h, hs))
]

sort_stats-Other : (c : Text) (stats : List Stat) → Other c stats → Other c (sort_stats stats)
unfolding sort_stats
sort_stats-Other c [] h = tt
sort_stats-Other c (s ∷ stats) (h, hs) =
    insert_stat-Other c s (sort_stats stats) h (sort_stats-Other c stats hs)

sort_stats-IsMerged : (stats : List Stat) → IsMerged stats → IsMerged (sort_stats stats)
unfolding sort_stats
sort_stats-IsMerged [] h = tt
sort_stats-IsMerged (s ∷ stats) (h, hs) =
    insert_stat-IsMerged s (sort_stats stats) (sort_stats-Other s.cmd stats h)
      (sort_stats-IsMerged stats hs)

-- A command without a row counts for nothing.
counts-Other :
    (f : Stat → ℕ) (c : Text) (stats : List Stat) → Other c stats → counts_of f c stats ≡ 0
counts-Other f c [] h = refl
counts-Other f c (s ∷ stats) (h, hs) =
    ground (arith, h, text_eq_iff s.cmd c, counts-Other f c stats hs)

-- A row is the only one of its command, so that it has what all rows have of it.
own-counts :
    (f : Stat → ℕ) (stats : List Stat)
    → IsMerged stats
    → All (λ s. f s ≡ counts_of f s.cmd stats) stats
own-counts f [] h = tt
own-counts f (s ∷ stats) (h, hs) = (
  ground (arith, text_eq_refl s.cmd, counts-Other f s.cmd stats h),
  All-skip stats h (own-counts f stats hs),
)
  where
    All-skip :
        (rest : List Stat)
        → Other s.cmd rest
        → All (λ t. f t ≡ counts_of f t.cmd stats) rest
        → All (λ t. f t ≡ counts_of f t.cmd (s ∷ stats)) rest
    All-skip [] o k = tt
    All-skip (t ∷ rest) (o, os) (k, ks) =
        (ground (arith, o, k, text_eq_iff s.cmd t.cmd), All-skip rest os ks)

All-total :
    (f g : Stat → ℕ) (k : Text → ℕ) (j : Text → ℕ) (rows rest : List Stat)
    → ((c : Text) → counts_of f c rows ≡ k c)
    → ((c : Text) → counts_of g c rows ≡ j c)
    → All (λ s. f s ≡ counts_of f s.cmd rows) rest
    → All (λ s. g s ≡ counts_of g s.cmd rows) rest
    → All (λ s. (f s ≡ k s.cmd) × (g s ≡ j s.cmd)) rest
All-total f g k j rows [] hk hj a b = tt
All-total f g k j rows (s ∷ rest) hk hj (a, more) (b, others) =
    ((a ∙ hk s.cmd, b ∙ hj s.cmd), All-total f g k j rows rest hk hj more others)

module _ (recs : List UsageRecord) where
  abbrev rows : List Stat
  rows = sort_stats (count_all recs [])

  rows-IsMerged : IsMerged rows
  rows-IsMerged = sort_stats-IsMerged (count_all recs []) (count_all-IsMerged recs [] tt)

  rows-runs : (c : Text) → counts_of (λ s. s.n) c rows ≡ runs_in c recs
  rows-runs c =
      ground (arith, counts-sort_stats (λ s. s.n) c (count_all recs []), runs-count_all c recs [])

  rows-errors : (c : Text) → counts_of (λ s. s.errs) c rows ≡ errors_in c recs
  rows-errors c =
      ground
        (arith, counts-sort_stats (λ s. s.errs) c (count_all recs []), errors-count_all c recs [])

-- Each command has at most one row in the usage report, and the row says how often the command stands in the
-- log and how often with an error. What the rows have of any command, listed or not, adds up to its runs in
-- the log, so that none is left out. The rows come in order: more runs first, and where they are as many,
-- by name.
pub sort_stats-count_all :
    (recs : List UsageRecord)
    → IsMerged (sort_stats (count_all recs []))
      × All
          (λ s. (s.n ≡ runs_in s.cmd recs) × (s.errs ≡ errors_in s.cmd recs))
          (sort_stats (count_all recs []))
      × ((c : Text) → counts_of (λ s. s.n) c (sort_stats (count_all recs [])) ≡ runs_in c recs)
      × IsSorted (sort_stats (count_all recs []))
sort_stats-count_all recs = (
  rows-IsMerged recs,
  All-total (λ s. s.n) (λ s. s.errs) (λ c. runs_in c recs) (λ c. errors_in c recs) (rows recs)
      (rows recs) (rows-runs recs) (rows-errors recs)
      (own-counts (λ s. s.n) (rows recs) (rows-IsMerged recs))
      (own-counts (λ s. s.errs) (rows recs) (rows-IsMerged recs)),
  rows-runs recs,
  InOrder-IsSorted (rows recs) (sort_stats-InOrder (count_all recs [])),
)
