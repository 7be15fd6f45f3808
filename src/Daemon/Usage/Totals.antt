-- ===== src/Daemon/Usage/Totals.antt =====
-- The counts of the usage report.
use golang_debugger_skill.Base.{
  ℕ, ◌+◌, ◌≡◌, refl, Bool, true, false, List, [], ◌∷◌, arith, Text, text_eq, text_eq_iff,
  if◌then◌else◌, Bool-cases, inl, inr,
}
use golang_debugger_skill.Daemon.Host.{UsageRecord}
use golang_debugger_skill.Daemon.Usage.{
  Stat, count_record, count_all, text_lt, before, insert_stat, sort_stats,
}

-- What a list of counts says of a command.
abbrev pub counts_of : (Stat → ℕ) → Text → List Stat → ℕ
counts_of f c [] = 0
counts_of f c (s ∷ stats) = (if text_eq s.cmd c then f s else 0) + counts_of f c stats

-- How often a command stands in the log, and how often with an error.
abbrev pub runs_in : Text → List UsageRecord → ℕ
runs_in c [] = 0
runs_in c (rec ∷ recs) = (if text_eq rec.cmd c then 1 else 0) + runs_in c recs

abbrev pub errors_in : Text → List UsageRecord → ℕ
errors_in c [] = 0
errors_in c (rec ∷ recs) =
    (if text_eq rec.cmd c then (if rec.ok then 0 else 1) else 0) + errors_in c recs

-- No row belongs before the row above it.
abbrev pub InOrder : List Stat → Type 0
InOrder [] = Unit {0}
InOrder (s ∷ []) = Unit {0}
InOrder (s ∷ t ∷ stats) = (before t s ≡ false) × InOrder (t ∷ stats)

runs-count_record :
    (c : Text) (rec : UsageRecord) (stats : List Stat)
    → counts_of (λ s. s.n) c (count_record rec stats)
      ≡ (if text_eq rec.cmd c then 1 else 0) + counts_of (λ s. s.n) c stats
unfolding count_record
runs-count_record c rec [] = ground arith
runs-count_record c rec (s ∷ stats) = ground (
  arith,
  text_eq_iff s.cmd rec.cmd,
  text_eq_iff s.cmd c,
  text_eq_iff rec.cmd c,
  runs-count_record c rec stats,
)

errors-count_record :
    (c : Text) (rec : UsageRecord) (stats : List Stat)
    → counts_of (λ s. s.errs) c (count_record rec stats)
      ≡ (if text_eq rec.cmd c then (if rec.ok then 0 else 1) else 0)
        + counts_of (λ s. s.errs) c stats
unfolding count_record
errors-count_record c rec [] = ground arith
errors-count_record c rec (s ∷ stats) = ground (
  arith,
  text_eq_iff s.cmd rec.cmd,
  text_eq_iff s.cmd c,
  text_eq_iff rec.cmd c,
  errors-count_record c rec stats,
)

pub runs-count_all :
    (c : Text) (recs : List UsageRecord) (stats : List Stat)
    → counts_of (λ s. s.n) c (count_all recs stats) ≡ runs_in c recs + counts_of (λ s. s.n) c stats
unfolding count_all
runs-count_all c [] stats = omega arith
runs-count_all c (rec ∷ recs) stats =
    ground (arith, runs-count_all c recs (count_record rec stats), runs-count_record c rec stats)

pub errors-count_all :
    (c : Text) (recs : List UsageRecord) (stats : List Stat)
    → counts_of (λ s. s.errs) c (count_all recs stats)
      ≡ errors_in c recs + counts_of (λ s. s.errs) c stats
unfolding count_all
errors-count_all c [] stats = omega arith
errors-count_all c (rec ∷ recs) stats =
    ground
      (arith, errors-count_all c recs (count_record rec stats), errors-count_record c rec stats)

counts-insert_stat :
    (f : Stat → ℕ) (c : Text) (s : Stat) (stats : List Stat)
    → counts_of f c (insert_stat s stats)
      ≡ (if text_eq s.cmd c then f s else 0) + counts_of f c stats
unfolding insert_stat
counts-insert_stat f c s [] = refl
counts-insert_stat f c s (t ∷ stats) = ground (arith, counts-insert_stat f c s stats)

pub counts-sort_stats :
    (f : Stat → ℕ) (c : Text) (stats : List Stat)
    → counts_of f c (sort_stats stats) ≡ counts_of f c stats
unfolding sort_stats
counts-sort_stats f c [] = refl
counts-sort_stats f c (s ∷ stats) =
    ground (arith, counts-sort_stats f c stats, counts-insert_stat f c s (sort_stats stats))

text_lt_asym : (s t : Text) → text_lt s t ≡ true → text_lt t s ≡ false
unfolding text_lt
text_lt_asym [] [] h = cc
text_lt_asym [] (d ∷ t) h = refl
text_lt_asym (c ∷ s) [] h = cc
text_lt_asym (c ∷ s) (d ∷ t) h = ground (arith, text_lt_asym s t)

before_asym : (a b : Stat) → before a b ≡ true → before b a ≡ false
unfolding before
before_asym a b h = ground (arith, text_lt_asym a.cmd b.cmd)

-- A row that may stand above both candidates stands above the one that comes first.
InOrder-cons :
    (t s u : Stat) (b : Bool) (ins stats : List Stat)
    → before s t ≡ false
    → before u t ≡ false
    → InOrder (if b then u ∷ ins else s ∷ u ∷ stats)
    → InOrder (t ∷ (if b then u ∷ ins else s ∷ u ∷ stats))
InOrder-cons t s u true ins stats hs hu h = (hu, h)
InOrder-cons t s u false ins stats hs hu h = (hs, h)

insert_stat-InOrder : (s : Stat) (stats : List Stat) → InOrder stats → InOrder (insert_stat s stats)
unfolding insert_stat
insert_stat-InOrder s [] h = tt
insert_stat-InOrder s (t ∷ []) h = elim (Bool-cases (before t s)) [
  | inl e ↦ rw e (before_asym t s e, tt)
  | inr e ↦ rw e (e, tt)
]
insert_stat-InOrder s (t ∷ u ∷ stats) (hu, h) = by_order (insert_stat-InOrder s (u ∷ stats) h)
  where
    rest : List Stat
    rest = if before u s then u ∷ insert_stat s stats else s ∷ u ∷ stats

    by_order : InOrder rest → InOrder (if before t s then t ∷ rest else s ∷ t ∷ u ∷ stats)
    by_order k = elim (Bool-cases (before t s)) [
      | inl e ↦
          rw e
            (InOrder-cons t s u (before u s) (insert_stat s stats) stats (before_asym t s e) hu k)
      | inr e ↦ rw e (e, (hu, h))
    ]

pub sort_stats-InOrder : (stats : List Stat) → InOrder (sort_stats stats)
unfolding sort_stats
sort_stats-InOrder [] = tt
sort_stats-InOrder (s ∷ stats) = insert_stat-InOrder s (sort_stats stats) (sort_stats-InOrder stats)
