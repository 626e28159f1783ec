-- ===== src/Replay/Stats.antt =====
-- netreplay/core/replay/stats.py: the counters of a replay. Sizes and times are naturals, in bytes and microseconds, so the
-- `max` with 0 changes nothing; `timing_drift` is the pair of its operands.
use net_replay.Common.{ℕ, ◌+◌, ◌≡◌, refl, List, [], ◌∷◌, arith, max}

pub record ReplayStats : Type 0 where
  pub sent : ℕ
  pub skipped : ℕ
  pub failed : ℕ
  pub bytes : ℕ
  pub scheduled : ℕ
  pub elapsed : ℕ

abbrev pub no_stats : ReplayStats
no_stats = record { sent = 0; skipped = 0; failed = 0; bytes = 0; scheduled = 0; elapsed = 0 }

unfoldable pub record_sent : ReplayStats → ℕ → ℕ → ReplayStats
record_sent s size gap = record s {
  sent = s.sent + 1;
  bytes = s.bytes + max 0 size;
  scheduled = s.scheduled + max 0 gap;
}

unfoldable pub record_skipped : ReplayStats → ReplayStats
record_skipped s = record s { skipped = s.skipped + 1 }

unfoldable pub record_failed : ReplayStats → ReplayStats
record_failed s = record s { failed = s.failed + 1 }

unfoldable pub attempted : ReplayStats → ℕ
attempted s = s.sent + s.failed

unfoldable pub merge : ReplayStats → ReplayStats → ReplayStats
merge s other = record {
  sent = s.sent + other.sent;
  skipped = s.skipped + other.skipped;
  failed = s.failed + other.failed;
  bytes = s.bytes + other.bytes;
  scheduled = s.scheduled + other.scheduled;
  elapsed = s.elapsed + other.elapsed;
}

-- What a replay loop reports of a frame.
pub data Report : Type 0 where
  was_sent : (size gap : ℕ) → Report
  was_skipped was_failed : Report

abbrev pub report : ReplayStats → Report → ReplayStats
report s (was_sent size gap) = record_sent s size gap
report s was_skipped = record_skipped s
report s was_failed = record_failed s

abbrev pub report_all : ReplayStats → List Report → ReplayStats
report_all s [] = s
report_all s (r ∷ rs) = report_all (report s r) rs

stats_eq :
    (a b : ReplayStats)
    → a.sent ≡ b.sent
    → a.skipped ≡ b.skipped
    → a.failed ≡ b.failed
    → a.bytes ≡ b.bytes
    → a.scheduled ≡ b.scheduled
    → a.elapsed ≡ b.elapsed
    → a ≡ b
stats_eq a b e f g h i j = cc

merge-report : (s t : ReplayStats) (r : Report) → merge s (report t r) ≡ report (merge s t) r
unfolding merge record_sent record_skipped record_failed
merge-report s t (was_sent size gap) =
    stats_eq (merge s (record_sent t size gap)) (record_sent (merge s t) size gap) (omega arith)
      refl refl (omega arith) (omega arith) refl
merge-report s t was_skipped =
    stats_eq (merge s (record_skipped t)) (record_skipped (merge s t)) refl (omega arith) refl refl
      refl refl
merge-report s t was_failed =
    stats_eq (merge s (record_failed t)) (record_failed (merge s t)) refl refl (omega arith) refl
      refl refl

-- Merging the statistics of two parts of a replay gives what one accumulator would have counted: for the reports `rs` fed to
-- any statistics `t`, merging the result into `s` is feeding `rs` to `t` merged into `s`.
pub merge-report_all :
    (s t : ReplayStats) (rs : List Report) → merge s (report_all t rs) ≡ report_all (merge s t) rs
merge-report_all s t [] = refl
merge-report_all s t (r ∷ rs) = rw (merge-report_all s (report t r) rs, merge-report s t r) refl
